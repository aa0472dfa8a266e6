-- ===== src/Caps/Registry.antt =====
-- src/capabilities/registry.rs, the bitfield: one bit for each resource in eight `u32` words.
-- The atomics are plain reads and writes of the list `REGISTRY_BITS`.
pub mod Laws
pub mod Ownership
use hr_os.Prelude.{
  ℕ, ◌-◌, ◌/◌, ◌%◌, ◌^◌, Bool, false, not, none, some, List, [], ◌∷◌, ◌==◌, get_elem?, set, bit_and,
  bit_or,
}

abbrev pub max_resources : ℕ
max_resources = 256

abbrev pub words : ℕ
words = max_resources / 32

abbrev pub RegistryBits : Type 0
RegistryBits = List ℕ

-- The initializer. The section is not loaded or cleared at boot, so a registry may start otherwise.
abbrev pub registry_bits : RegistryBits
registry_bits = 0 ∷ 0 ∷ 0 ∷ 0 ∷ 0 ∷ 0 ∷ 0 ∷ 0 ∷ []

unfoldable pub available : RegistryBits → ℕ → Bool
available bits resource_id = elim (get_elem? bits (resource_id / 32)) [
  | some w ↦ bit_and w (2 ^ (resource_id % 32)) == 0
  | none ↦ false
]

unfoldable pub is_claimed : RegistryBits → ℕ → Bool
is_claimed bits resource_id = not (available bits resource_id)

unfoldable pub acquire : RegistryBits → ℕ → RegistryBits × Bool
acquire bits resource_id =
    let word = resource_id / 32 in
    let mask = 2 ^ (resource_id % 32) in
    elim (get_elem? bits word) [
      | some prev ↦ (set bits word (bit_or prev mask), bit_and prev mask == 0)
      | none ↦ (bits, false)
    ]

unfoldable pub release : RegistryBits → ℕ → RegistryBits
release bits resource_id =
    let word = resource_id / 32 in
    elim (get_elem? bits word) [
      | some w ↦ set bits word (bit_and w (2 ^ 32 - 1 - 2 ^ (resource_id % 32)))
      | none ↦ bits
    ]
