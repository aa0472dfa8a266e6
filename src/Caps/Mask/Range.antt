-- ===== src/Caps/Mask/Range.antt =====
-- crates/hros-cap/src/lib.rs, `registry::verify_range_contiguous`: the blocks of a range against the
-- registry, window by window. The source takes a raw pointer to the window's words; a window that
-- does not lie inside `REGISTRY_BITS` ends the model's run as `past_the_end`.
pub mod Windows
pub mod Claimed
use hr_os.Prelude.{
  ℕ, zero, suc, ◌+◌, ◌-◌, ◌*◌, ◌/◌, ◌%◌, ◌^◌, Bool, true, false, Option, none, some, List, [], ◌∷◌,
  length, ◌==◌, ltb, leb, if◌then◌else◌, get_or,
}
use hr_os.Caps.Registry.{RegistryBits}
use hr_os.Caps.Mask.{Mask256, build_mask_window, verify_vector}

-- `running` is a loop cut off by the fuel.
pub data Verdict : Type 0 where
  verdict : Bool → Verdict
  past_the_end running : Verdict

-- Two words of the registry, read as one of 64 bits on a little-endian machine.
abbrev pub u64_at : RegistryBits → ℕ → ℕ
u64_at bits u32_word = get_or bits (suc u32_word) 0 * 2 ^ 32 + get_or bits u32_word 0

unfoldable pub window_at : RegistryBits → ℕ → Option Mask256
window_at bits u32_word =
    if leb (u32_word + 8) (length bits)
    then some (
        u64_at bits u32_word
        ∷ u64_at bits (u32_word + 2)
        ∷ u64_at bits (u32_word + 4)
        ∷ u64_at bits (u32_word + 6)
        ∷ [])
    else none

unfoldable pub verify_windows : ℕ → RegistryBits → ℕ → ℕ → ℕ → ℕ → Verdict
verify_windows zero bits addr len k_end curr_win = running
verify_windows (suc fuel) bits addr len k_end curr_win =
    let rest = verify_windows fuel bits addr len k_end ((curr_win + 256) % 2 ^ 32) in
    if ltb k_end curr_win then verdict true else elim (build_mask_window addr len curr_win) [
      | none ↦ rest
      | some mask ↦ elim (window_at bits (curr_win / 32)) [
        | none ↦ past_the_end
        | some vcap ↦ if verify_vector mask vcap then rest else verdict false
      ]
    ]

unfoldable pub verify_range_contiguous : RegistryBits → ℕ → ℕ → Verdict
verify_range_contiguous bits addr len =
    if len == 0
    then verdict true
    else let k_start = addr / 4096 in
      let k_end = (k_start + len - 1) % 2 ^ 32 in
      let curr_win = k_start / 256 * 256 in
      verify_windows (suc (suc ((k_end - curr_win) / 256))) bits addr len k_end curr_win
