-- ===== src/Memory/Flat.antt =====
-- src/kernel/memory.rs: `peek_u32`, `poke_u32`, `reg_set_bit`, `reg_clr_bit`. Words are little-endian.
-- A read gives the bytes last written: a device register whose read has another meaning, such as the
-- data register of a UART, and the flash, are outside this model.
-- A shift of a `u32` takes its amount modulo 32, as in a release build.
use hr_os.Prelude.{
  ℕ, zero, suc, refl, ap, ap₂, ◌∙◌, List, [], ◌∷◌, set, ◌+◌, ◌-◌, ◌*◌, ◌/◌, ◌%◌, ◌^◌, ◌≤◌, ◌<◌, ◌≡◌,
  ◌⊎◌, ◌==◌, if◌then◌else◌, arith, bit_and, bit_or,
}

abbrev pub Memory : Type 0
Memory = ℕ → ℕ

unfoldable pub peek_u32 : ℕ → Memory → ℕ
peek_u32 addr mem =
    mem addr + mem (addr + 1) * 2 ^ 8 + mem (addr + 2) * 2 ^ 16 + mem (addr + 3) * 2 ^ 24

unfoldable pub poke_u32 : ℕ → ℕ → Memory → Memory
poke_u32 addr value mem x =
    if x == addr
    then value % 2 ^ 8
    else if x == addr + 1
    then value / 2 ^ 8 % 2 ^ 8
    else if x == addr + 2
    then value / 2 ^ 16 % 2 ^ 8
    else if x == addr + 3
    then value / 2 ^ 24 % 2 ^ 8
    else mem x

-- Words in a row.
unfoldable pub words_at : ℕ → ℕ → Memory → List ℕ
words_at zero addr mem = []
words_at (suc n) addr mem = peek_u32 addr mem ∷ words_at n (addr + 4) mem

unfoldable pub reg_set_bit : ℕ → ℕ → Memory → Memory
reg_set_bit addr bit mem = poke_u32 addr (bit_or (peek_u32 addr mem) (2 ^ (bit % 32))) mem

unfoldable pub reg_clr_bit : ℕ → ℕ → Memory → Memory
reg_clr_bit addr bit mem =
    poke_u32 addr (bit_and (peek_u32 addr mem) (2 ^ 32 - 1 - 2 ^ (bit % 32))) mem

pub peek-poke :
    (addr value : ℕ) (mem : Memory)
    → value < 2 ^ 32
    → peek_u32 addr (poke_u32 addr value mem) ≡ value
unfolding peek_u32 poke_u32
peek-poke addr value mem h = ground arith

pub peek-poke_apart :
    (addr other value : ℕ) (mem : Memory)
    → (addr + 4 ≤ other) ⊎ (other + 4 ≤ addr)
    → peek_u32 other (poke_u32 addr value mem) ≡ peek_u32 other mem
unfolding peek_u32 poke_u32
peek-poke_apart addr other value mem h = ground arith

-- A byte that a write changes is one of the word's.
pub poke-elsewhere :
    (addr value : ℕ) (mem : Memory) (x : ℕ)
    → (poke_u32 addr value mem x ≡ mem x) ⊎ ((addr ≤ x) × (x < addr + 4))
unfolding poke_u32
poke-elsewhere addr value mem x = ground arith

pub words_at-poke_apart :
    (n addr other value : ℕ) (mem : Memory)
    → (addr + 4 ≤ other) ⊎ (other + 4 * n ≤ addr)
    → words_at n other (poke_u32 addr value mem) ≡ words_at n other mem
unfolding words_at
words_at-poke_apart zero addr other value mem h = refl
words_at-poke_apart (suc n) addr other value mem h =
    ap₂ (λ w ws. w ∷ ws) (peek-poke_apart addr other value mem (omega arith))
      (words_at-poke_apart n addr (other + 4) value mem (omega arith))

pub words_at-poke :
    (n i at addr value : ℕ) (mem : Memory)
    → i < n
    → value < 2 ^ 32
    → addr ≡ at + 4 * i
    → words_at n at (poke_u32 addr value mem) ≡ set (words_at n at mem) i value
unfolding words_at
words_at-poke zero i at addr value mem lt small e = absurd (omega arith)
words_at-poke (suc n) zero at addr value mem lt small e =
    let here : at ≡ addr = omega arith in
    ap₂ (λ w ws. w ∷ ws)
      (ap (λ (x : ℕ). peek_u32 x (poke_u32 addr value mem)) here ∙ peek-poke addr value mem small)
      (words_at-poke_apart n addr (at + 4) value mem (omega arith))
words_at-poke (suc n) (suc i) at addr value mem lt small e =
    ap₂ (λ w ws. w ∷ ws) (peek-poke_apart addr at value mem (omega arith))
      (words_at-poke n i (at + 4) addr value mem (omega arith) small (omega arith))
