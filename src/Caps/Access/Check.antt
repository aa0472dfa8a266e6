-- ===== src/Caps/Access/Check.antt =====
-- src/capabilities/registry.rs, `check_access`: what is granted, and to whom.
use hr_os.Prelude.{ℕ, ◌<◌, ◌≡◌, false, some, ok, err, arith, Option-cases, inl, inr}
use hr_os.Caps.Registry.{RegistryBits, max_resources, is_claimed, acquire, release}
use hr_os.Caps.Registry.Laws.{IsValid}
use hr_os.Caps.Registry.Ownership.{is_claimed-acquire, is_claimed-release}
use hr_os.Caps.Access.{
  Arch, arm, riscv32, CapId, super_user, index, arm_addr_to_cap, riscv_addr_to_cap, addr_to_cap_id,
  is_superuser_active, is_ram_flash, check_access,
}

index-lt : (c : CapId) → index c < max_resources
index-lt c = ground arith

-- No address is both a peripheral's register and free memory, on the two targets.
arm_peripheral :
    (addr : ℕ) (c : CapId) → arm_addr_to_cap addr ≡ some c → is_ram_flash arm addr ≡ false
unfolding arm_addr_to_cap is_ram_flash
arm_peripheral addr c h = ground arith

riscv_peripheral :
    (addr : ℕ) (c : CapId) → riscv_addr_to_cap addr ≡ some c → is_ram_flash riscv32 addr ≡ false
unfolding riscv_addr_to_cap is_ram_flash
riscv_peripheral addr c h = ground arith

-- When an access is refused for want of a capability, the superuser capability is not held, the
-- capability named in the error is not claimed, and once it is claimed the access is granted.
pub check_access-remedy :
    (arch : Arch) {bits : RegistryBits} (addr : ℕ) (c : CapId)
    → IsValid bits
    → check_access arch bits addr ≡ err c
    → (is_superuser_active bits ≡ false)
      × (is_claimed bits (index c) ≡ false)
      × (check_access arch (acquire bits (index c)).0 addr ≡ ok tt)
unfolding check_access is_superuser_active is_claimed
check_access-remedy arch {bits} addr c v h = ground (
  arith,
  is_claimed-acquire (index c) (index c) v (index-lt c) (index-lt c),
  is_claimed-acquire (index c) (index super_user) v (index-lt c) (index-lt super_user),
)

-- Claiming a capability never takes an access away: what was granted stays granted.
pub check_access-acquire :
    (arch : Arch) {bits : RegistryBits} (addr i : ℕ)
    → IsValid bits
    → i < max_resources
    → check_access arch bits addr ≡ ok tt
    → check_access arch (acquire bits i).0 addr ≡ ok tt
unfolding check_access is_superuser_active is_claimed
check_access-acquire arch {bits} addr i v h granted =
    elim (Option-cases (addr_to_cap_id arch addr)) [
      | inl free ↦
          ground (arith, free, is_claimed-acquire i (index super_user) v h (index-lt super_user))
      | inr (c, guarded) ↦ ground (
        arith,
        guarded,
        is_claimed-acquire i (index c) v h (index-lt c),
        is_claimed-acquire i (index super_user) v h (index-lt super_user),
      )
    ]

-- Without the superuser capability, releasing the capability that guards an address revokes every
-- access to that address, and the error names that capability.
pub check_access-release :
    (arch : Arch) {bits : RegistryBits} (addr : ℕ) (c : CapId)
    → IsValid bits
    → is_superuser_active bits ≡ false
    → addr_to_cap_id arch addr ≡ some c
    → check_access arch (release bits (index c)) addr ≡ err c
unfolding check_access is_superuser_active is_claimed
check_access-release arch {bits} addr c v off guarded = ground (
  arith,
  is_claimed-release (index c) (index c) v (index-lt c) (index-lt c),
  is_claimed-release (index c) (index super_user) v (index-lt c) (index-lt super_user),
)
