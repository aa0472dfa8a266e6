-- ===== src/Prelude/Bits/Words.antt =====
-- Single-bit masks, the complement, and extensionality of words.
use Prim.Native.Nat.{ℕ, zero, suc, ◌+◌, ◌-◌, ◌*◌, ◌/◌, ◌%◌, ◌^◌, ◌≤◌, ◌<◌, bit_and}
use mathlib.Core.Path.{◌≡◌, refl, ap, ◌∙◌}
use mathlib.Core.Logic.{◌⊎◌, inl, inr}
use native.Mathlib.Omega.{arith}
use native.Mathlib.Nat.{pow-suc, one-le-pow, pow-le-pow_right}
use hr_os.Prelude.Tests.{◌==◌, if◌then◌else◌}
use hr_os.Prelude.Bits.Digits.{test_bit, test_bit_none, test_bit-le, test_bit-and}

-- Two words with the same bits are equal.
eq_of_bits_below : (n a b : ℕ) → a ≤ n → b ≤ n → ((i : ℕ) → test_bit a i ≡ test_bit b i) → a ≡ b
unfolding test_bit
eq_of_bits_below zero a b p q h = omega arith
eq_of_bits_below (suc n) a b p q h =
    let low : a % 2 ≡ b % 2 = h 0 in
    let high : a / 2 ≡ b / 2 =
      eq_of_bits_below n (a / 2) (b / 2) (omega arith) (omega arith) (λ i. h (suc i)) in
    omega arith

pub eq_of_test_bit : (a b : ℕ) → ((i : ℕ) → test_bit a i ≡ test_bit b i) → a ≡ b
eq_of_test_bit a b h = eq_of_bits_below (a + b) a b (omega arith) (omega arith) h

pub test_bit-pow : (b i : ℕ) → test_bit (2 ^ b) i ≡ (if i == b then 1 else 0)
unfolding test_bit
test_bit-pow zero zero = refl
test_bit-pow zero (suc i) = ground (arith, test_bit_none i)
test_bit-pow (suc b) zero = ground (arith, pow-suc 2 b)
test_bit-pow (suc b) (suc i) =
    let half : 2 ^ suc b / 2 ≡ 2 ^ b = omega (arith, pow-suc 2 b) in
    rw half (ground (arith, test_bit-pow b i))

-- No bit is set at or above the width.
pub test_bit_above : (k w i : ℕ) → w < 2 ^ k → k ≤ i → test_bit w i ≡ 0
unfolding test_bit
test_bit_above zero w i h p = let e : w ≡ 0 = omega arith in rw e (test_bit_none i)
test_bit_above (suc k) w zero h p = absurd (omega arith)
test_bit_above (suc k) w (suc i) h p =
    test_bit_above k (w / 2) i (omega (arith, pow-suc 2 k)) (omega arith)

-- `!w` at width `k` is `2 ^ k - 1 - w`.
pub test_bit-complement :
    (k w i : ℕ) → w < 2 ^ k → i < k → test_bit (2 ^ k - 1 - w) i ≡ 1 - test_bit w i
unfolding test_bit
test_bit-complement zero w i h p = absurd (omega arith)
test_bit-complement (suc k) w zero h p = omega (arith, pow-suc 2 k)
test_bit-complement (suc k) w (suc i) h p =
    let half : (2 ^ suc k - 1 - w) / 2 ≡ 2 ^ k - 1 - w / 2 = omega (arith, pow-suc 2 k) in
    rw half (test_bit-complement k (w / 2) i (omega (arith, pow-suc 2 k)) (omega arith))

pub Bit-cases : (w i : ℕ) → (test_bit w i ≡ 0) ⊎ (test_bit w i ≡ 1)
Bit-cases w i = omega (arith, test_bit-le w i)

-- `w & (1 << b)` is the bit at its place.
pub bit_and-pow : (w b : ℕ) → bit_and w (2 ^ b) ≡ test_bit w b * 2 ^ b
bit_and-pow w b = elim (Bit-cases w b) [
  | inl clear ↦ rw clear (
      eq_of_test_bit (bit_and w (2 ^ b)) 0
        (λ i. ground (arith, test_bit-and w (2 ^ b) i, test_bit-pow b i, test_bit_none i, clear))
      ∙ omega arith)
  | inr held ↦ rw held (
      eq_of_test_bit (bit_and w (2 ^ b)) (2 ^ b)
        (λ i. ground (arith, test_bit-and w (2 ^ b) i, test_bit-pow b i, test_bit-le w i, held))
      ∙ omega arith)
]

-- The test `w & (1 << b) == 0`.
pub bit_and-pow_clear : (w b : ℕ) → (bit_and w (2 ^ b) == 0) ≡ (test_bit w b == 0)
bit_and-pow_clear w b = elim (Bit-cases w b) [
  | inl clear ↦ ground (arith, bit_and-pow w b, clear, ap (λ (t : ℕ). t * 2 ^ b) clear)
  | inr held ↦
      ground
        (arith, bit_and-pow w b, held, ap (λ (t : ℕ). t * 2 ^ b) held, one-le-pow b 2 (omega arith))
]

-- A single bit below the width fits the width.
pub pow-lt-pow : (b k : ℕ) → b < k → 2 ^ b < 2 ^ k
pow-lt-pow b k h = omega (
  arith,
  pow-suc 2 b,
  one-le-pow b 2 (omega arith),
  pow-le-pow_right {n = 2} (omega arith) {i = suc b} {j = k} h,
)
