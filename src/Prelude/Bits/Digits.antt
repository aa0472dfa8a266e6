-- ===== src/Prelude/Bits/Digits.antt =====
-- Bit `i` of a word, of `&` and `|`, by induction on the digits that the native operations compute.
use Prim.Native.Nat.{
  ℕ, zero, suc, ◌+◌, ◌*◌, ◌/◌, ◌%◌, ◌^◌, ◌≤◌, ◌<◌, min, max, bit_and, bit_or, digits,
  bit_and-bitwise, bit_or-bitwise,
}
use mathlib.Core.Path.{◌≡◌, refl}
use native.Mathlib.Omega.{arith}
use native.Mathlib.Nat.{pow-suc}

unfoldable pub test_bit : ℕ → ℕ → ℕ
test_bit w zero = w % 2
test_bit w (suc i) = test_bit (w / 2) i

pub test_bit-zero : (w : ℕ) → test_bit w 0 ≡ w % 2
unfolding test_bit
test_bit-zero w = refl

pub test_bit-suc : (w i : ℕ) → test_bit w (suc i) ≡ test_bit (w / 2) i
unfolding test_bit
test_bit-suc w i = refl

pub test_bit_none : (i : ℕ) → test_bit 0 i ≡ 0
unfolding test_bit
test_bit_none zero = refl
test_bit_none (suc i) = test_bit_none i

pub test_bit-le : (w i : ℕ) → test_bit w i ≤ 1
unfolding test_bit
test_bit-le w zero = omega arith
test_bit-le w (suc i) = test_bit-le (w / 2) i

-- A digit operation `f`, with `z` for what is left of the second number when the first runs out.
module _ (z : ℕ → ℕ) (f : ℕ → ℕ → ℕ) (digit : (x y : ℕ) → x ≤ 1 → y ≤ 1 → f x y ≤ 1)
    (rest : (b i : ℕ) → test_bit (z b) i ≡ f 0 (test_bit b i))
    (rest_lt : (k b : ℕ) → b < 2 ^ k → z b < 2 ^ k) where
  test_bit-digits :
      (i n a b : ℕ) → a ≤ n → test_bit (digits z f n a b) i ≡ f (test_bit a i) (test_bit b i)
  test_bit-digits i zero zero b h = rw test_bit_none (rest b i)
  test_bit-digits i zero (suc a) b h = absurd (omega arith)
  test_bit-digits i (suc n) zero b h = rw test_bit_none (rest b i)
  test_bit-digits zero (suc n) (suc a) b h =
      rw (test_bit-zero, test_bit-zero, test_bit-zero)
        (omega (arith, digit (suc a % 2) (b % 2) (omega arith) (omega arith)))
  test_bit-digits (suc i) (suc n) (suc a) b h =
      let low : f (suc a % 2) (b % 2) ≤ 1 = digit (suc a % 2) (b % 2) (omega arith) (omega arith) in
      let half : (digits z f n (suc a / 2) (b / 2) * 2 + f (suc a % 2) (b % 2)) / 2
          ≡ digits z f n (suc a / 2) (b / 2) =
        omega arith in
      rw (test_bit-suc, half, test_bit-suc, test_bit-suc)
        (test_bit-digits i n (suc a / 2) (b / 2) (omega arith))

  digits-lt : (k n a b : ℕ) → a < 2 ^ k → b < 2 ^ k → digits z f n a b < 2 ^ k
  digits-lt k zero a b p q = rest_lt k b q
  digits-lt k (suc n) zero b p q = rest_lt k b q
  digits-lt zero (suc n) (suc a) b p q = absurd (omega arith)
  digits-lt (suc k) (suc n) (suc a) b p q = omega (
    arith,
    pow-suc 2 k,
    digit (suc a % 2) (b % 2) (omega arith) (omega arith),
    digits-lt k n (suc a / 2) (b / 2) (omega (arith, pow-suc 2 k)) (omega (arith, pow-suc 2 k)),
  )

pub test_bit-and : (a b i : ℕ) → test_bit (bit_and a b) i ≡ min (test_bit a i) (test_bit b i)
test_bit-and a b i = rw bit_and-bitwise (
    test_bit-digits (λ b. 0) min (λ x y p q. omega arith) (λ b i. omega (arith, test_bit_none i))
      (λ k b h. omega arith) i a a b (omega arith))

pub test_bit-or : (a b i : ℕ) → test_bit (bit_or a b) i ≡ max (test_bit a i) (test_bit b i)
test_bit-or a b i = rw bit_or-bitwise (
    test_bit-digits (λ b. b) max (λ x y p q. omega arith) (λ b i. omega arith) (λ k b h. h) i a a b
      (omega arith))

pub bit_or-lt : (k a b : ℕ) → a < 2 ^ k → b < 2 ^ k → bit_or a b < 2 ^ k
bit_or-lt k a b p q =
    rw bit_or-bitwise (
      digits-lt (λ b. b) max (λ x y p q. omega arith) (λ b i. omega arith) (λ k b h. h) k a a b p q)

pub bit_and-lt : (k a b : ℕ) → a < 2 ^ k → b < 2 ^ k → bit_and a b < 2 ^ k
bit_and-lt k a b p q = rw bit_and-bitwise (
    digits-lt (λ b. 0) min (λ x y p q. omega arith) (λ b i. omega (arith, test_bit_none i))
      (λ k b h. omega arith) k a a b p q)
