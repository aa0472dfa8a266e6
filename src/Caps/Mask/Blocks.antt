-- ===== src/Caps/Mask/Blocks.antt =====
-- crates/hros-cap/src/lib.rs: which blocks the mask of a range asks for.
use hr_os.Prelude.{
  ℕ, zero, suc, ◌+◌, ◌-◌, ◌*◌, ◌/◌, ◌%◌, ◌^◌, ◌≤◌, ◌<◌, min, max, ◌≡◌, refl, ap, ◌∙◌, ◌↔◌, ◌⊎◌, inl,
  inr, true, ◌&&◌, none, some, All-get_or, get_or, ltb, leb, if◌then◌else◌, arith,
}
use mathlib.Core.Path.{subst}
use hr_os.Prelude.Bits.{test_bit, test_bit_none, test_bit-le}
use hr_os.Caps.Mask.{
  Mask256, mask_zero, mark, mark_blocks, build_mask_window, verify_scalar, verify_vector,
}
use hr_os.Caps.Mask.Words.{
  IsMask, word_bit, mark-IsMask, word_bit-mark, verify_scalar_lem, verify_vector_lem,
}

mark_blocks-IsMask :
    (n k window_base : ℕ) (m : Mask256)
    → IsMask m
    → window_base ≤ k
    → k + n ≤ window_base + 256
    → IsMask (mark_blocks n k window_base m)
unfolding mark_blocks
mark_blocks-IsMask zero k window_base m v h room = v
mark_blocks-IsMask (suc n) k window_base m v h room =
    mark_blocks-IsMask n (suc k) window_base _ (mark-IsMask m (k - window_base) v (omega arith))
      (omega arith) (omega arith)

word_bit-mark_blocks :
    (n k window_base : ℕ) (m : Mask256) (j : ℕ)
    → IsMask m
    → window_base ≤ k
    → k + n ≤ window_base + 256
    → word_bit (mark_blocks n k window_base m) j
      ≡ (if leb k (window_base + j) && ltb (window_base + j) (k + n) then 1 else word_bit m j)
unfolding mark_blocks
word_bit-mark_blocks zero k window_base m j v h room = ground arith
word_bit-mark_blocks (suc n) k window_base m j v h room =
    let rest : word_bit (mark_blocks n (suc k) window_base (mark m (k - window_base))) j ≡ (
        if leb (suc k) (window_base + j) && ltb (window_base + j) (suc k + n)
        then 1
        else word_bit (mark m (k - window_base)) j) =
      word_bit-mark_blocks n (suc k) window_base _ j
        (mark-IsMask m (k - window_base) v (omega arith)) (omega arith) (omega arith) in
    rest ∙ ground (arith, word_bit-mark m (k - window_base) j v (omega arith))

zero-IsMask : IsMask mask_zero
zero-IsMask = omega arith

word_bit_zero : (j : ℕ) → word_bit mask_zero j ≡ 0
word_bit_zero j =
    let none : get_or mask_zero (j / 64) 0 ≡ 0 =
      All-get_or (λ w. w ≡ 0) mask_zero (j / 64) 0 (refl, (refl, (refl, (refl, tt)))) refl in
    ap (λ (w : ℕ). test_bit w (j % 64)) none ∙ test_bit_none (j % 64)

-- Block `k` is one of the `len` blocks from `addr` on, and one of the window.
abbrev pub Requested : ℕ → ℕ → ℕ → ℕ → Type 0
Requested addr len window_base k =
    (addr / 4096 ≤ k) × (k < addr / 4096 + len) × (window_base ≤ k) × (k < window_base + 256)

-- The mask of a window: its blocks are the requested ones.
record IsMaskOf (addr len window_base : ℕ) (m : Mask256) : Type 0 where
  sizes : IsMask m
  bits :
      (j : ℕ)
      → j < 256
      → word_bit m j ≡ (
          if leb (addr / 4096) (window_base + j) && ltb (window_base + j) (addr / 4096 + len)
          then 1
          else 0)

marked :
    (addr len window_base j : ℕ)
    → addr / 4096 + len ≤ 2 ^ 20
    → window_base < 2 ^ 20
    → 0 < len
    → j < 256
    → max (addr / 4096) window_base ≤ min (addr / 4096 + len - 1) (window_base + 255)
    → word_bit
        (mark_blocks
          (suc (min (addr / 4096 + len - 1) (window_base + 255)) - max (addr / 4096) window_base)
          (max (addr / 4096) window_base)
          window_base
          mask_zero)
        j
      ≡ (if leb (addr / 4096) (window_base + j) && ltb (window_base + j) (addr / 4096 + len)
          then 1
          else 0)
marked addr len window_base j in_space low some_blocks lt meets =
    word_bit-mark_blocks _ (max (addr / 4096) window_base) window_base mask_zero j zero-IsMask
      (omega arith) (omega arith)
    ∙ ground (arith, word_bit_zero j)

build_mask_window_lem :
    (addr len window_base : ℕ)
    → addr / 4096 + len ≤ 2 ^ 20
    → window_base < 2 ^ 20
    → ((build_mask_window addr len window_base ≡ none)
        × ((k : ℕ) → Requested addr len window_base k → ⊥))
      ⊎ ((m : Mask256) × (build_mask_window addr len window_base ≡ some m)
          × IsMaskOf addr len window_base m)
unfolding build_mask_window
build_mask_window_lem addr len window_base in_space low =
    let start : ℕ = addr / 4096 in
    elim (split (min (start + len - 1) (window_base + 255)) (max start window_base)) [
      | inl (inl e) ↦ inl (ground arith, λ k r. omega (arith, r.0, r.1))
      | inl (inr apart) ↦ inl (ground arith, λ k r. omega (arith, r.0, r.1))
      | inr (some_blocks, meets) ↦ inr (
        mark_blocks (suc (min (start + len - 1) (window_base + 255)) - max start window_base)
            (max start window_base) window_base mask_zero,
        ground arith,
        record {
          sizes =
              mark_blocks-IsMask _ (max start window_base) window_base mask_zero zero-IsMask
                (omega arith) (omega arith);
          bits = λ j lt. marked addr len window_base j in_space low some_blocks lt meets;
        },
      )
    ]
  where
    split : (a b : ℕ) → ((len ≡ 0) ⊎ (a < b)) ⊎ ((0 < len) × (b ≤ a))
    split a b = omega arith

scalar_at :
    (k window_base : ℕ) (vcap : Mask256)
    → window_base % 256 ≡ 0
    → window_base ≤ k
    → k < window_base + 256
    → (verify_scalar (k * 4096) vcap ≡ true) ↔ (word_bit vcap (k - window_base) ≡ 1)
scalar_at k window_base vcap aligned low high =
    let place : k * 4096 / 4096 % 256 ≡ k - window_base = omega arith in
    subst (λ (n : ℕ). (verify_scalar (k * 4096) vcap ≡ true) ↔ (word_bit vcap n ≡ 1)) place
      (verify_scalar_lem (k * 4096) vcap)

vector_scalars :
    (addr len window_base : ℕ) (m vcap : Mask256)
    → window_base % 256 ≡ 0
    → IsMaskOf addr len window_base m
    → (verify_vector m vcap ≡ true)
      ↔ ((k : ℕ) → Requested addr len window_base k → verify_scalar (k * 4096) vcap ≡ true)
vector_scalars addr len window_base m vcap aligned of = (
  λ h k r.
      let covered : word_bit m (k - window_base) ≤ word_bit vcap (k - window_base) =
        (verify_vector_lem m vcap of.sizes).0 h (k - window_base) (omega (arith, r)) in
      (scalar_at k window_base vcap aligned (omega (arith, r)) (omega (arith, r))).1 (
        ground (
          arith,
          r,
          covered,
          of.bits (k - window_base) (omega (arith, r)),
          bit vcap (k - window_base),
        )),
  λ h. (verify_vector_lem m vcap of.sizes).1 (λ j lt. elim (split j) [
    | inl requested ↦
        let one : word_bit vcap (window_base + j - window_base) ≡ 1 =
          (scalar_at (window_base + j) window_base vcap aligned (omega arith) (omega arith)).0
            (h (window_base + j) (requested.0, requested.1, omega arith, omega arith)) in
        let here : window_base + j - window_base ≡ j = omega arith in
        omega (arith, subst (λ (n : ℕ). word_bit vcap n ≡ 1) here one, bit m j)
    | inr other ↦ ground (arith, of.bits j lt)
  ]),
)
  where
    bit : (w : Mask256) (j : ℕ) → word_bit w j ≤ 1
    bit w j = test_bit-le (get_or w (j / 64) 0) (j % 64)

    split :
        (j : ℕ)
        → ((addr / 4096 ≤ window_base + j) × (window_base + j < addr / 4096 + len))
          ⊎ (((addr / 4096 ≤ window_base + j) × (window_base + j < addr / 4096 + len)) → ⊥)
    split j = omega arith

-- For a window that starts at a multiple of 256, and a range that ends within the 32-bit addresses,
-- there is no mask exactly when no block of the range lies in the window; and with the mask, the
-- comparison of the vectors grants exactly when the scalar predicate grants each of those blocks.
pub build_mask_window-verifies :
    (addr len window_base : ℕ) (vcap : Mask256)
    → addr / 4096 + len ≤ 2 ^ 20
    → window_base < 2 ^ 20
    → window_base % 256 ≡ 0
    → ((build_mask_window addr len window_base ≡ none)
        × ((k : ℕ) → Requested addr len window_base k → ⊥))
      ⊎ ((m : Mask256) × (build_mask_window addr len window_base ≡ some m)
          × ((verify_vector m vcap ≡ true) ↔ (
              (k : ℕ) → Requested addr len window_base k → verify_scalar (k * 4096) vcap ≡ true)))
build_mask_window-verifies addr len window_base vcap in_space low aligned =
    elim (build_mask_window_lem addr len window_base in_space low) [
      | inl outside ↦ inl outside
      | inr (m, built, of) ↦ inr (m, built, vector_scalars addr len window_base m vcap aligned of)
    ]
