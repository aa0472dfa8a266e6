-- ===== src/Prelude/Bits/Fields.antt =====
-- Fields of a machine word: an or of fields that do not overlap is their sum.
use Prim.Native.Nat.{ℕ, zero, suc, ◌+◌, ◌-◌, ◌*◌, ◌/◌, ◌^◌, ◌≤◌, ◌<◌, max, bit_or}
use mathlib.Core.Path.{◌≡◌, sym, ap, ap₂, ◌∙◌}
use mathlib.Core.Logic.{◌⊎◌, inl, inr}
use native.Mathlib.Omega.{arith}
use native.Mathlib.Nat.{pow-suc}
use hr_os.Prelude.Bits.Digits.{test_bit, test_bit-suc, test_bit_none, test_bit-or}
use hr_os.Prelude.Bits.Words.{eq_of_test_bit, test_bit_above}

double : (k b : ℕ) → b * 2 ^ suc k ≡ 2 * (b * 2 ^ k)
double k b = ap (λ (t : ℕ). b * t) (pow-suc 2 k) ∙ omega arith

-- The bits of a low field below `k`, and of a high field from `k` on.
pub test_bit_low : (k b a i : ℕ) → i < k → test_bit (b * 2 ^ k + a) i ≡ test_bit a i
unfolding test_bit
test_bit_low zero b a i h = absurd (omega arith)
test_bit_low (suc k) b a zero h = omega (arith, double k b)
test_bit_low (suc k) b a (suc i) h =
    let half : (b * 2 ^ suc k + a) / 2 ≡ b * 2 ^ k + a / 2 = omega (arith, double k b) in
    rw half (test_bit_low k b (a / 2) i (omega arith))

pub test_bit_high : (k b a j : ℕ) → a < 2 ^ k → test_bit (b * 2 ^ k + a) (k + j) ≡ test_bit b j
unfolding test_bit
test_bit_high zero b a j h =
    ap₂ test_bit {x = b * 2 ^ 0 + a} (let e : b * 2 ^ 0 + a ≡ b = omega arith in e)
      (let e : 0 + j ≡ j = omega arith in e)
test_bit_high (suc k) b a j h =
    let half : (b * 2 ^ suc k + a) / 2 ≡ b * 2 ^ k + a / 2 = omega (arith, double k b) in
    ap (test_bit (b * 2 ^ suc k + a)) (let e : suc k + j ≡ suc (k + j) = omega arith in e)
    ∙ test_bit-suc (b * 2 ^ suc k + a) (k + j)
    ∙ ap (λ (n : ℕ). test_bit n (k + j)) half
    ∙ test_bit_high k b (a / 2) j (omega (arith, pow-suc 2 k))

below_or_from : (k i : ℕ) → (i < k) ⊎ ((j : ℕ) × (i ≡ k + j))
below_or_from k i = elim (split k i) [ inl h ↦ inl h | inr h ↦ inr (i - k, omega arith) ]
  where
    split : (k i : ℕ) → (i < k) ⊎ (k ≤ i)
    split k i = omega arith

-- A field below bit `k` under one from bit `k` on.
pub bit_or-field : (k b a : ℕ) → a < 2 ^ k → bit_or (b * 2 ^ k) a ≡ b * 2 ^ k + a
bit_or-field k b a h = eq_of_test_bit (bit_or (b * 2 ^ k) a) (b * 2 ^ k + a) (λ i.
    test_bit-or (b * 2 ^ k) a i ∙ (elim (below_or_from k i) [
      | inl lt ↦
          let none : test_bit (b * 2 ^ k) i ≡ 0 =
            pad k b i ∙ test_bit_low k b 0 i lt ∙ test_bit_none i in
          rw (none, test_bit_low k b a i lt) (omega arith)
      | inr (j, e) ↦
          let clear : test_bit a i ≡ 0 = test_bit_above k a i h (omega arith) in
          let same : test_bit (b * 2 ^ k) i ≡ test_bit b j =
            pad k b i
            ∙ ap (test_bit (b * 2 ^ k + 0)) e
            ∙ test_bit_high k b 0 j (omega (arith, h)) in
          let sum : test_bit (b * 2 ^ k + a) i ≡ test_bit b j =
            ap (test_bit (b * 2 ^ k + a)) e ∙ test_bit_high k b a j h in
          rw (clear, same, sum) (omega arith)
    ]))
  where
    pad : (k b i : ℕ) → test_bit (b * 2 ^ k) i ≡ test_bit (b * 2 ^ k + 0) i
    pad k b i = ap (λ (n : ℕ). test_bit n i) {x = b * 2 ^ k} {y = b * 2 ^ k + 0} (omega arith)

pub bit_or_comm : (a b : ℕ) → bit_or a b ≡ bit_or b a
bit_or_comm a b =
    eq_of_test_bit (bit_or a b) (bit_or b a)
      (λ i. test_bit-or a b i ∙ omega arith ∙ sym (test_bit-or b a i))

pub bit_or_right_comm : (a b c : ℕ) → bit_or (bit_or a b) c ≡ bit_or (bit_or a c) b
bit_or_right_comm a b c = eq_of_test_bit (bit_or (bit_or a b) c) (bit_or (bit_or a c) b) (λ i.
    test_bit-or (bit_or a b) c i
    ∙ ap (λ (t : ℕ). max t (test_bit c i)) (test_bit-or a b i)
    ∙ omega arith
    ∙ ap (λ (t : ℕ). max t (test_bit b i)) (sym (test_bit-or a c i))
    ∙ sym (test_bit-or (bit_or a c) b i))
