-- ===== src/Caps/Mask/Range/Windows.antt =====
-- crates/hros-cap/src/lib.rs, `registry::verify_range_contiguous`: one pass of its loop, over the
-- first window and over one that lies behind it.
use hr_os.Prelude.{
  ℕ, zero, suc, ◌+◌, ◌-◌, ◌*◌, ◌/◌, ◌%◌, ◌^◌, ◌≤◌, ◌<◌, ◌≡◌, refl, sym, ap, ap₂, ◌∙◌, ◌↔◌, ◌⊎◌, inl,
  inr, true, false, Bool-cases, none, some, get_or, [], ◌∷◌, All-get_or, arith,
}
use mathlib.Core.Bool.{true≢false}
use hr_os.Prelude.Bits.{test_bit, test_bit_low, test_bit_high}
use hr_os.Caps.Registry.{RegistryBits, is_claimed}
use hr_os.Caps.Registry.Laws.{IsValid, bit_at, is_claimed_lem}
use hr_os.Caps.Mask.{Mask256, verify_scalar, verify_vector}
use hr_os.Caps.Mask.Words.{word_bit, verify_scalar_lem}
use hr_os.Caps.Mask.Blocks.{Requested, build_mask_window-verifies}
use hr_os.Caps.Mask.Range.{verdict, past_the_end, u64_at, window_at, verify_windows}

abbrev pub first_window : RegistryBits → Mask256
first_window bits = u64_at bits 0 ∷ u64_at bits 2 ∷ u64_at bits 4 ∷ u64_at bits 6 ∷ []

first_window_word :
    (bits : RegistryBits) (q : ℕ) → q < 4 → get_or (first_window bits) q 0 ≡ u64_at bits (q * 2)
first_window_word bits zero h = refl
first_window_word bits (suc zero) h = refl
first_window_word bits (suc (suc zero)) h = refl
first_window_word bits (suc (suc (suc zero))) h = refl
first_window_word bits (suc (suc (suc (suc q)))) h = absurd (omega arith)

below_or_above : (r : ℕ) → (r < 32) ⊎ (32 ≤ r)
below_or_above r = omega arith

-- A bit of the first window is the bit of the registry.
word_bit-first_window :
    {bits : RegistryBits} (j : ℕ)
    → IsValid bits
    → j < 256
    → word_bit (first_window bits) j ≡ bit_at bits j
word_bit-first_window {bits} j v h =
    ap (λ (w : ℕ). test_bit w (j % 64)) (first_window_word bits (j / 64) (omega arith))
    ∙ (elim (below_or_above (j % 64)) [
      | inl low ↦
          test_bit_low 32 (get_or bits (suc (j / 64 * 2)) 0) (get_or bits (j / 64 * 2) 0) (j % 64)
            low
          ∙ bit_place (j / 64 * 2) (j % 64) (omega arith) (omega arith)
      | inr high ↦
          ap (test_bit (u64_at bits (j / 64 * 2))) {x = j % 64} {y = 32 + (j % 64 - 32)}
            (omega arith)
          ∙ test_bit_high 32 (get_or bits (suc (j / 64 * 2)) 0) (get_or bits (j / 64 * 2) 0)
              (j % 64 - 32) (All-get_or (λ w. w < 2 ^ 32) bits (j / 64 * 2) 0 v.fit (omega arith))
          ∙ bit_place (suc (j / 64 * 2)) (j % 64 - 32) (omega arith) (omega arith)
    ])
  where
    bit_place : (q r : ℕ) → q ≡ j / 32 → r ≡ j % 32 → test_bit (get_or bits q 0) r ≡ bit_at bits j
    bit_place q r a b = ap₂ (λ (x y : ℕ). test_bit (get_or bits x 0) y) a b

pub scalar_claimed :
    {bits : RegistryBits} (k : ℕ)
    → IsValid bits
    → k < 256
    → (verify_scalar (k * 4096) (first_window bits) ≡ true) ↔ (is_claimed bits k ≡ true)
scalar_claimed {bits} k v h =
    let place : k * 4096 / 4096 % 256 ≡ k = omega arith in
    let bit : word_bit (first_window bits) (k * 4096 / 4096 % 256) ≡ bit_at bits k =
      ap (word_bit (first_window bits)) place ∙ word_bit-first_window k v h in
    ground (arith, verify_scalar_lem (k * 4096) (first_window bits), bit, is_claimed_lem k v h)

window_at_first : {bits : RegistryBits} → IsValid bits → window_at bits 0 ≡ some (first_window bits)
unfolding window_at
window_at_first {bits} v = ground (arith, v.count)

window_at_past :
    {bits : RegistryBits} (u32_word : ℕ)
    → IsValid bits
    → 1 ≤ u32_word
    → window_at bits u32_word ≡ none
unfolding window_at
window_at_past {bits} u32_word v h = ground (arith, v.count)

-- A pass over a window behind the first that has a block of the range.
pub windows_past :
    {bits : RegistryBits} (fuel addr len k_end curr_win k : ℕ)
    → IsValid bits
    → addr / 4096 + len ≤ 2 ^ 20
    → curr_win % 256 ≡ 0
    → 256 ≤ curr_win
    → curr_win ≤ k_end
    → Requested addr len curr_win k
    → verify_windows (suc fuel) bits addr len k_end curr_win ≡ past_the_end
unfolding verify_windows
windows_past {bits} fuel addr len k_end curr_win k v in_space aligned behind on requested =
    elim (build_mask_window-verifies addr len curr_win [] in_space (omega (arith, requested))
      aligned) [
        | inl outside ↦ absurd (outside.1 k requested)
        | inr (m, built, same) ↦
            ground (arith, built, window_at_past (curr_win / 32) v (omega arith))
      ]

-- A pass over the first window.
pub windows_first :
    {bits : RegistryBits} (fuel addr len k_end : ℕ)
    → IsValid bits
    → addr / 4096 + len ≤ 2 ^ 20
    → addr / 4096 < 256
    → 0 < len
    → ((verify_windows (suc fuel) bits addr len k_end 0
          ≡ verify_windows fuel bits addr len k_end 256)
        × ((k : ℕ) → Requested addr len 0 k → verify_scalar (k * 4096) (first_window bits) ≡ true))
      ⊎ ((verify_windows (suc fuel) bits addr len k_end 0 ≡ verdict false)
          × (((k : ℕ)
                → Requested addr len 0 k
                → verify_scalar (k * 4096) (first_window bits) ≡ true)
              → ⊥))
unfolding verify_windows
windows_first {bits} fuel addr len k_end v in_space low some_blocks =
    elim (build_mask_window-verifies addr len 0 (first_window bits) in_space (omega arith) refl) [
      | inl outside ↦
          absurd (outside.1 (addr / 4096) (omega arith, omega arith, omega arith, omega arith))
      | inr (m, built, same) ↦ elim (Bool-cases (verify_vector m (first_window bits))) [
        | inl granted ↦ inl (ground (arith, built, window_at_first v, granted), same.0 granted)
        | inr refused ↦ inr (
          ground (arith, built, window_at_first v, refused),
          λ all. true≢false (sym (same.1 all) ∙ refused),
        )
      ]
    ]
