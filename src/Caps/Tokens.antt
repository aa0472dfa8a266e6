-- ===== src/Caps/Tokens.antt =====
-- src/capabilities/tokens.rs: linear tokens over the registry, and the names of the resources.
-- A token is its `id`; that a token is neither copied nor forged is Rust's ownership, and stands
-- in `Caps.Tokens.Ledger` as the list of the tokens that exist.
pub mod Ledger
pub mod Names
use hr_os.Prelude.{
  ℕ, ◌+◌, ◌%◌, ◌^◌, Bool, true, Option, none, some, List, [], ◌∷◌, if◌then◌else◌, codes, bytes_eq,
}
use hr_os.Caps.Registry.{RegistryBits, acquire, release}

pub record Cap : Type 0 where
  pub id : ℕ

unfoldable pub claim : ℕ → RegistryBits → RegistryBits × Option Cap
claim resource_id bits =
    let (bits', won) = acquire bits resource_id in
    (bits', if won then some (record { id = resource_id }) else none)

unfoldable pub drop_cap : Cap → RegistryBits → RegistryBits
drop_cap cap bits = release bits cap.id

unfoldable pub steal : ℕ → RegistryBits → RegistryBits × Cap
steal resource_id bits = ((acquire bits resource_id).0, record { id = resource_id })

abbrev pub superuser : ℕ
superuser = 31

-- The counter is an `AtomicU32`, and `fetch_add` wraps.
unfoldable pub grant_superuser : RegistryBits → ℕ → RegistryBits × ℕ × Option Cap
grant_superuser bits audit_count =
    let (bits', cap) = claim superuser bits in
    (bits', elim cap [ some _ ↦ (audit_count + 1) % 2 ^ 32 | none ↦ audit_count ], cap)

abbrev pub table : List (List ℕ × ℕ)
table =
    (codes "GPIOA", 0)
    ∷ (codes "GPIOB", 1)
    ∷ (codes "UART0", 2)
    ∷ (codes "SPI0", 3)
    ∷ (codes "I2C0", 4)
    ∷ (codes "TIMER0", 5)
    ∷ (codes "DMA0", 6)
    ∷ (codes "SUPERUSER", 31)
    ∷ []

unfoldable pub find_name : List (List ℕ × ℕ) → List ℕ → Option ℕ
find_name [] name = none
find_name ((n, id) ∷ rest) name = if bytes_eq n name then some id else find_name rest name

unfoldable pub resolve_name : List ℕ → Option ℕ
unfolding find_name
resolve_name name = find_name table name
