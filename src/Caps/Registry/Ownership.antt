-- ===== src/Caps/Registry/Ownership.antt =====
-- src/capabilities/registry.rs: the calls, as operations on the set of claimed resources.
use hr_os.Prelude.{
  ℕ, ◌≤◌, ◌<◌, ◌≡◌, true, false, ◌||◌, not, ◌&&◌, ◌==◌, arith, get_elem?, get_elem?-past, none, ◌/◌,
}
use hr_os.Caps.Registry.{RegistryBits, max_resources, available, is_claimed, acquire, release}
use hr_os.Caps.Registry.Laws.{
  IsValid, is_claimed_lem, acquire_lem, acquire-IsValid, release-IsValid, bit_at-acquire,
  bit_at-release,
}

module _ {bits : RegistryBits} (i j : ℕ) (v : IsValid bits) (hi : i < max_resources)
    (hj : j < max_resources) where
  -- Claiming a resource below 256 succeeds exactly when it was available; afterwards that resource
  -- is claimed, every other resource is as before, and the registry is well formed.
  pub is_claimed-acquire :
      ((acquire bits i).1 ≡ not (is_claimed bits i))
      × (is_claimed (acquire bits i).0 j ≡ ((j == i) || is_claimed bits j))
      × IsValid (acquire bits i).0
  unfolding is_claimed
  is_claimed-acquire = (
    ground (arith, acquire_lem i v hi),
    ground (
      arith,
      is_claimed_lem j v hj,
      is_claimed_lem j (acquire-IsValid i v hi) hj,
      bit_at-acquire i j v hi,
    ),
    acquire-IsValid i v hi,
  )

  -- Releasing a resource below 256 makes it available, leaves every other resource as it was, and
  -- keeps the registry well formed.
  pub is_claimed-release :
      (is_claimed (release bits i) j ≡ (not (j == i) && is_claimed bits j))
      × IsValid (release bits i)
  is_claimed-release = (
    ground (
      arith,
      is_claimed_lem j v hj,
      is_claimed_lem j (release-IsValid i v hi) hj,
      bit_at-release i j v hi,
    ),
    release-IsValid i v hi,
  )

-- At or above 256 no call changes the registry: a claim fails, and the resource counts as claimed
-- though it never is available.
pub out_of_range :
    {bits : RegistryBits} (i : ℕ)
    → IsValid bits
    → max_resources ≤ i
    → (acquire bits i ≡ (bits, false))
      × (release bits i ≡ bits)
      × (available bits i ≡ false)
      × (is_claimed bits i ≡ true)
unfolding acquire release available is_claimed
out_of_range {bits} i v h =
    let past : get_elem? bits (i / 32) ≡ none = get_elem?-past bits (i / 32) (omega arith) in
    ground (arith, past)
