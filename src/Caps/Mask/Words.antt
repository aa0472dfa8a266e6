-- ===== src/Caps/Mask/Words.antt =====
-- crates/hros-cap/src/lib.rs: the bits of a mask, and the comparison of two of them word by word.
use hr_os.Prelude.{
  ℕ, zero, suc, ◌+◌, ◌*◌, ◌/◌, ◌%◌, ◌^◌, ◌≤◌, ◌<◌, ◌≡◌, refl, sym, ap, ap₂, ◌∙◌, ◌↔◌, ◌⊎◌, inl, inr,
  true, ◌==◌, ==_iff, if◌then◌else◌, length, get_or, length-set, get_or-set_self, get_or-set_ne,
  All, All-set, All-get_or, arith, bit_and, bit_or,
}
use native.Mathlib.Nat.{pow-suc, div-div-eq-div-mul}
use hr_os.Prelude.Bits.{
  test_bit, test_bit-le, test_bit-and, test_bit-or, test_bit-pow, bit_or-lt, pow-lt-pow,
  eq_of_test_bit, test_bit_above, test_bit-zero, test_bit-suc,
}
use hr_os.Caps.Mask.{Mask256, mark, verify_scalar, verify_vector}

pub record IsMask (m : Mask256) : Type 0 where
  pub count : length m ≡ 4
  pub fit : All (λ w. w < 2 ^ 64) m

abbrev pub word_bit : Mask256 → ℕ → ℕ
word_bit m j = test_bit (get_or m (j / 64) 0) (j % 64)

pub mark-IsMask : (m : Mask256) (off : ℕ) → IsMask m → off < 256 → IsMask (mark m off)
unfolding mark
mark-IsMask m off v h = record {
  count = length-set m (off / 64) _ ∙ v.count;
  fit =
      All-set (λ w. w < 2 ^ 64) m (off / 64) _ v.fit
        (bit_or-lt 64 _ _ (All-get_or (λ w. w < 2 ^ 64) m (off / 64) 0 v.fit (omega arith))
          (pow-lt-pow (off % 64) 64 (omega arith)));
}

pub word_bit-mark :
    (m : Mask256) (off j : ℕ)
    → IsMask m
    → off < 256
    → word_bit (mark m off) j ≡ (if j == off then 1 else word_bit m j)
unfolding mark
word_bit-mark m off j v h = ground (
  arith,
  get_or-set_self m (off / 64) (bit_or w p) 0,
  get_or-set_ne m {i = off / 64} {j = j / 64} (bit_or w p) 0,
  v.count,
  test_bit-or w p (j % 64),
  test_bit-pow (off % 64) (j % 64),
  test_bit-le w (j % 64),
)
  where
    w : ℕ
    w = get_or m (off / 64) 0

    p : ℕ
    p = 2 ^ (off % 64)

-- The scalar predicate reads the bit of the block's place in its window.
shifted_bit : (w i : ℕ) → (w / 2 ^ i) % 2 ≡ test_bit w i
shifted_bit w zero = omega (arith, test_bit-zero w)
shifted_bit w (suc i) =
    ap (λ (n : ℕ). w / n % 2) {x = 2 ^ suc i} {y = 2 * 2 ^ i} (omega (arith, pow-suc 2 i))
    ∙ ap (λ (n : ℕ). n % 2) (sym (div-div-eq-div-mul w 2 (2 ^ i)))
    ∙ shifted_bit (w / 2) i
    ∙ sym (test_bit-suc w i)

pub verify_scalar_lem :
    (addr : ℕ) (v : Mask256) → (verify_scalar addr v ≡ true) ↔ (word_bit v (addr / 4096 % 256) ≡ 1)
unfolding verify_scalar
verify_scalar_lem addr v = rw (shifted_bit) (==_iff _ 1)

-- `v & m == m` says that every bit of `m` is one of `v`.
covers : (v m : ℕ) → ((bit_and v m == m) ≡ true) ↔ ((i : ℕ) → test_bit m i ≤ test_bit v i)
covers v m = (
  λ h i. omega (arith, test_bit-and v m i, ap (λ (n : ℕ). test_bit n i) ((==_iff _ m).0 h)),
  λ h. (==_iff _ m).1 (eq_of_test_bit _ m (λ i. test_bit-and v m i ∙ omega (arith, h i))),
)

word_covers :
    (v m : Mask256) (q : ℕ)
    → IsMask m
    → ((j : ℕ) → j < 256 → word_bit m j ≤ word_bit v j)
    → q < 4
    → (bit_and (get_or v q 0) (get_or m q 0) == get_or m q 0) ≡ true
word_covers v m q g h lt = (covers (get_or v q 0) (get_or m q 0)).1 (λ i. elim (inside i) [
  | inl low ↦ omega (arith, place m i low, place v i low, h (q * 64 + i) (omega arith))
  | inr high ↦
      let none : test_bit (get_or m q 0) i ≡ 0 =
        test_bit_above 64 _ i (All-get_or (λ w. w < 2 ^ 64) m q 0 g.fit (omega arith)) high in
      omega (arith, none)
])
  where
    inside : (i : ℕ) → (i < 64) ⊎ (64 ≤ i)
    inside i = omega arith

    place : (w : Mask256) (i : ℕ) → i < 64 → word_bit w (q * 64 + i) ≡ test_bit (get_or w q 0) i
    place w i low =
        ap₂ (λ (x y : ℕ). test_bit (get_or w x 0) y) {x = (q * 64 + i) / 64} {y = q} (omega arith)
          (omega arith)

word_of :
    (v m : Mask256) (q : ℕ)
    → verify_vector m v ≡ true
    → q < 4
    → (bit_and (get_or v q 0) (get_or m q 0) == get_or m q 0) ≡ true
unfolding verify_vector
word_of v m zero h lt = ground arith
word_of v m (suc zero) h lt = ground arith
word_of v m (suc (suc zero)) h lt = ground arith
word_of v m (suc (suc (suc zero))) h lt = ground arith
word_of v m (suc (suc (suc (suc q)))) h lt = absurd (omega arith)

-- The vector comparison says that every bit of the mask is one of the window.
pub verify_vector_lem :
    (m v : Mask256)
    → IsMask m
    → (verify_vector m v ≡ true) ↔ ((j : ℕ) → j < 256 → word_bit m j ≤ word_bit v j)
unfolding verify_vector
verify_vector_lem m v g = (
  λ h j lt.
      (covers (get_or v (j / 64) 0) (get_or m (j / 64) 0)).0 (word_of v m (j / 64) h (omega arith))
        (j % 64),
  λ h.
      rw
        (
          word_covers v m 0 g h (omega arith),
          word_covers v m 1 g h (omega arith),
          word_covers v m 2 g h (omega arith),
          word_covers v m 3 g h (omega arith),
        )
        refl,
)
