-- ===== src/Caps/Registry/Laws.antt =====
-- src/capabilities/registry.rs: what one call does to every bit of the registry.
use hr_os.Prelude.{
  ℕ, ◌-◌, ◌/◌, ◌%◌, ◌^◌, ◌<◌, ◌≡◌, ◌∙◌, some, ◌==◌, if◌then◌else◌, length, get_elem?, get_or, set,
  length-set, get_or-set_self, get_or-set_ne, get_elem?-eq-get_or, All, All-set, All-get_or, arith,
  bit_and, bit_or,
}
use hr_os.Prelude.Bits.{
  test_bit, test_bit-le, test_bit-and, test_bit-or, test_bit-pow, test_bit-complement, bit_or-lt,
  bit_and-lt, bit_and-pow_clear, pow-lt-pow,
}
use hr_os.Caps.Registry.{RegistryBits, max_resources, available, is_claimed, acquire, release}

-- Eight words of 32 bits.
pub record IsValid (bits : RegistryBits) : Type 0 where
  pub count : length bits ≡ 8
  pub fit : All (λ w. w < 2 ^ 32) bits

-- Bit `j` of the whole registry.
abbrev pub bit_at : RegistryBits → ℕ → ℕ
bit_at bits j = test_bit (get_or bits (j / 32) 0) (j % 32)

bit_at-set :
    (bits : RegistryBits) (q v j : ℕ)
    → q < length bits
    → bit_at (set bits q v) j ≡ (if j / 32 == q then test_bit v (j % 32) else bit_at bits j)
bit_at-set bits q v j h =
    ground (arith, get_or-set_self bits q v 0, get_or-set_ne bits {i = q} {j = j / 32} v 0)

word_at :
    {bits : RegistryBits} (i : ℕ)
    → IsValid bits
    → i < max_resources
    → get_elem? bits (i / 32) ≡ some (get_or bits (i / 32) 0)
word_at {bits} i v h = get_elem?-eq-get_or bits (i / 32) 0 (omega arith)

-- A resource in range is available when its bit is clear.
pub available_lem :
    {bits : RegistryBits} (i : ℕ)
    → IsValid bits
    → i < max_resources
    → available bits i ≡ (bit_at bits i == 0)
unfolding available
available_lem {bits} i v h =
    rw (word_at i v h, available) (bit_and-pow_clear (get_or bits (i / 32) 0) (i % 32))

pub is_claimed_lem :
    {bits : RegistryBits} (i : ℕ)
    → IsValid bits
    → i < max_resources
    → is_claimed bits i ≡ (bit_at bits i == 1)
unfolding is_claimed
is_claimed_lem {bits} i v h =
    ground (arith, available_lem i v h, test_bit-le (get_or bits (i / 32) 0) (i % 32))

pub acquire_lem :
    {bits : RegistryBits} (i : ℕ)
    → IsValid bits
    → i < max_resources
    → acquire bits i
      ≡ (set bits (i / 32) (bit_or (get_or bits (i / 32) 0) (2 ^ (i % 32))), available bits i)
unfolding acquire available
acquire_lem {bits} i v h = rw (word_at i v h, acquire, available)

pub release_lem :
    {bits : RegistryBits} (i : ℕ)
    → IsValid bits
    → i < max_resources
    → release bits i
      ≡ set bits (i / 32) (bit_and (get_or bits (i / 32) 0) (2 ^ 32 - 1 - 2 ^ (i % 32)))
unfolding release
release_lem {bits} i v h = rw (word_at i v h, release)

pub acquire-IsValid :
    {bits : RegistryBits} (i : ℕ) → IsValid bits → i < max_resources → IsValid (acquire bits i).0
acquire-IsValid {bits} i v h = rw (acquire_lem i v h) (record {
  count = length-set bits (i / 32) _ ∙ v.count;
  fit =
      All-set (λ w. w < 2 ^ 32) bits (i / 32) _ v.fit
        (bit_or-lt 32 _ _ (All-get_or (λ w. w < 2 ^ 32) bits (i / 32) 0 v.fit (omega arith))
          (pow-lt-pow (i % 32) 32 (omega arith)));
})

pub release-IsValid :
    {bits : RegistryBits} (i : ℕ) → IsValid bits → i < max_resources → IsValid (release bits i)
release-IsValid {bits} i v h = rw (release_lem i v h) (record {
  count = length-set bits (i / 32) _ ∙ v.count;
  fit =
      All-set (λ w. w < 2 ^ 32) bits (i / 32) _ v.fit
        (bit_and-lt 32 _ _ (All-get_or (λ w. w < 2 ^ 32) bits (i / 32) 0 v.fit (omega arith))
          (omega arith));
})

-- `acquire` sets the bit of its resource, and no other.
pub bit_at-acquire :
    {bits : RegistryBits} (i j : ℕ)
    → IsValid bits
    → i < max_resources
    → bit_at (acquire bits i).0 j ≡ (if j == i then 1 else bit_at bits j)
bit_at-acquire {bits} i j v h = rw (acquire_lem i v h) (
    ground (
      arith,
      bit_at-set bits (i / 32) (bit_or w m) j,
      test_bit-or w m (j % 32),
      test_bit-pow (i % 32) (j % 32),
      test_bit-le w (j % 32),
    ))
  where
    w : ℕ
    w = get_or bits (i / 32) 0

    m : ℕ
    m = 2 ^ (i % 32)

-- `release` clears the bit of its resource, and no other.
pub bit_at-release :
    {bits : RegistryBits} (i j : ℕ)
    → IsValid bits
    → i < max_resources
    → bit_at (release bits i) j ≡ (if j == i then 0 else bit_at bits j)
bit_at-release {bits} i j v h = rw (release_lem i v h) (
    ground (
      arith,
      bit_at-set bits (i / 32) (bit_and w (2 ^ 32 - 1 - m)) j,
      test_bit-and w (2 ^ 32 - 1 - m) (j % 32),
      test_bit-complement 32 m (j % 32),
      pow-lt-pow (i % 32) 32,
      test_bit-pow (i % 32) (j % 32),
      test_bit-le w (j % 32),
    ))
  where
    w : ℕ
    w = get_or bits (i / 32) 0

    m : ℕ
    m = 2 ^ (i % 32)
