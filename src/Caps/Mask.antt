-- ===== src/Caps/Mask.antt =====
-- crates/hros-cap/src/lib.rs: the request mask of a range of 4 KiB blocks within a window of 256
-- blocks, and its comparison with the four words of that window. `& 63`, `& 255` and `& !255` of the
-- source are the remainder and the multiple below; `usize` has 32 bits, as on the targets.
pub mod Words
pub mod Blocks
pub mod Range
mod Tests
use hr_os.Prelude.{
  ℕ, zero, suc, ◌+◌, ◌-◌, ◌*◌, ◌/◌, ◌%◌, ◌^◌, min, max, bit_and, bit_or, Bool, ◌&&◌, ◌||◌, Option,
  none, some, List, [], ◌∷◌, ◌==◌, ltb, if◌then◌else◌, get_or, set,
}

-- Four words of 64 bits, of a mask and of the window it is compared with.
abbrev pub Mask256 : Type 0
Mask256 = List ℕ

abbrev pub mask_zero : Mask256
mask_zero = 0 ∷ 0 ∷ 0 ∷ 0 ∷ []

-- One pass of the loop, for the block at `off` in its window.
unfoldable pub mark : Mask256 → ℕ → Mask256
mark mask off = set mask (off / 64) (bit_or (get_or mask (off / 64) 0) (2 ^ (off % 64)))

-- `for k in k..k + n`.
unfoldable pub mark_blocks : ℕ → ℕ → ℕ → Mask256 → Mask256
mark_blocks zero k window_base mask = mask
mark_blocks (suc n) k window_base mask =
    mark_blocks n (suc k) window_base (mark mask (k - window_base))

unfoldable pub build_mask_window : ℕ → ℕ → ℕ → Option Mask256
build_mask_window addr len window_base =
    if len == 0
    then none
    else let k_start = addr / 4096 in
      let k_end = (k_start + len - 1) % 2 ^ 32 in
      let win_start = max k_start window_base in
      let win_end = min k_end ((window_base + 255) % 2 ^ 32) in
      if ltb win_end win_start
      then none
      else some (mark_blocks (suc win_end - win_start) win_start window_base mask_zero)

unfoldable pub build_mask : ℕ → ℕ → Option Mask256
build_mask addr len =
    if (len == 0) || ltb 256 len then none else build_mask_window addr len (addr / 4096 / 256 * 256)

-- `vcap_base` is the window's four words.
unfoldable pub verify_scalar : ℕ → Mask256 → Bool
verify_scalar addr vcap_base =
    let k = addr / 4096 in
    let off = k % 256 in (get_or vcap_base (off / 64) 0 / 2 ^ (off % 64)) % 2 == 1

unfoldable pub verify_vector : Mask256 → Mask256 → Bool
verify_vector m v =
    (bit_and (get_or v 0 0) (get_or m 0 0) == get_or m 0 0)
    && (bit_and (get_or v 1 0) (get_or m 1 0) == get_or m 1 0)
    && (bit_and (get_or v 2 0) (get_or m 2 0) == get_or m 2 0)
    && (bit_and (get_or v 3 0) (get_or m 3 0) == get_or m 3 0)
