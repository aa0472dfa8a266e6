-- ===== src/Caps/Tokens/Names.antt =====
-- src/capabilities/tokens.rs, `resolve_name`, against `CapId` of src/capabilities/registry.rs.
use hr_os.Prelude.{
  ℕ, ◌≡◌, refl, some, List, arith, ◌↔◌, codes, bytes_eq, bytes_eq→≡, true, false, [], ◌∷◌, All,
  Bool-cases, inl, inr,
}
use mathlib.Core.Path.{subst₂}
use hr_os.Caps.Access.{CapId, gpio_a, gpio_b, uart0, spi0, i2c0, timer0, dma0, super_user, index}
use hr_os.Caps.Tokens.{table, find_name, resolve_name}

-- `HardwareResource::NAME` of each resource.
abbrev pub name : CapId → List ℕ
name gpio_a = codes "GPIOA"
name gpio_b = codes "GPIOB"
name uart0 = codes "UART0"
name spi0 = codes "SPI0"
name i2c0 = codes "I2C0"
name timer0 = codes "TIMER0"
name dma0 = codes "DMA0"
name super_user = codes "SUPERUSER"

resolve_name-name : (c : CapId) → resolve_name (name c) ≡ some (index c)
unfolding resolve_name
resolve_name-name gpio_a = refl
resolve_name-name _ = refl

module _ (m n : List ℕ) (k id : ℕ) (t : List (List ℕ × ℕ)) where
  picked : bytes_eq m n ≡ true → find_name ((m, k) ∷ t) n ≡ some id → k ≡ id
  unfolding find_name
  picked same h = ground arith

  passed : bytes_eq m n ≡ false → find_name ((m, k) ∷ t) n ≡ some id → find_name t n ≡ some id
  unfolding find_name
  passed other h = ground arith

-- What the search finds is a row of the table.
find_name-row :
    (P : List ℕ → ℕ → Type 0) (t : List (List ℕ × ℕ)) (n : List ℕ) (id : ℕ)
    → All (λ row. P row.0 row.1) t
    → find_name t n ≡ some id
    → P n id
unfolding find_name
find_name-row P [] n id rows h = absurd (cc)
find_name-row P ((m, k) ∷ t) n id (row, rows) h = elim (Bool-cases (bytes_eq m n)) [
  | inl same ↦ subst₂ P (bytes_eq→≡ m n same) (picked m n k id t same h) row
  | inr other ↦ find_name-row P t n id rows (passed m n k id t other h)
]

abbrev Named : List ℕ → ℕ → Type 0
Named n id = (c : CapId) × (n ≡ name c) × (id ≡ index c)

-- A name resolves to an identifier exactly when it is the name of a resource and the identifier is
-- that resource's `CapId`.
pub resolve_name_iff :
    (n : List ℕ) (id : ℕ)
    → (resolve_name n ≡ some id) ↔ ((c : CapId) × (n ≡ name c) × (id ≡ index c))
unfolding resolve_name
resolve_name_iff n id = (
  find_name-row Named table n id (
    (gpio_a, refl, refl),
    (
      (gpio_b, refl, refl),
      (
        (uart0, refl, refl),
        (
          (spi0, refl, refl),
          (
            (i2c0, refl, refl),
            ((timer0, refl, refl), ((dma0, refl, refl), ((super_user, refl, refl), tt))),
          ),
        ),
      ),
    ),
  ),
  λ found. rw (found.1, found.2) (resolve_name-name found.0),
)
