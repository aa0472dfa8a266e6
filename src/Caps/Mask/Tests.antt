-- ===== src/Caps/Mask/Tests.antt =====
-- crates/hros-cap/src/lib.rs: the theorems at concrete ranges, and runs of the code.
use hr_os.Prelude.{ℕ, ◌*◌, ◌≡◌, refl, ◌↔◌, ◌⊎◌, true, false, none, some, [], ◌∷◌, arith}
use hr_os.Caps.Registry.{RegistryBits}
use hr_os.Caps.Mask.{
  Mask256, mark, mark_blocks, build_mask_window, build_mask, verify_scalar, verify_vector,
}
use hr_os.Caps.Mask.Blocks.{Requested, build_mask_window-verifies}
use hr_os.Caps.Mask.Range.{
  verdict, past_the_end, window_at, verify_windows, verify_range_contiguous,
}

-- Blocks 63 and 64.
abbrev straddling : Mask256
straddling = 0x8000_0000_0000_0000 ∷ 1 ∷ 0 ∷ 0 ∷ []

masks :
    (build_mask 0x3F000 2 ≡ some straddling)
    × (build_mask 0 257 ≡ none)
    × (build_mask_window 0xFF000 2 256 ≡ some (1 ∷ 0 ∷ 0 ∷ 0 ∷ []))
    × (build_mask_window 0 2 256 ≡ none)
unfolding build_mask build_mask_window mark_blocks mark
masks = (refl, refl, refl, refl)

-- `build_mask` leaves out the blocks of a range that lie behind its first window.
build_mask_cuts : build_mask 0xFF000 2 ≡ build_mask 0xFF000 1
unfolding build_mask build_mask_window mark_blocks mark
build_mask_cuts = refl

build_mask_window-verifies_example :
    ((build_mask_window 0x3F000 2 0 ≡ none) × ((k : ℕ) → Requested 0x3F000 2 0 k → ⊥))
    ⊎ ((m : Mask256) × (build_mask_window 0x3F000 2 0 ≡ some m)
        × ((verify_vector m straddling ≡ true)
            ↔ ((k : ℕ) → Requested 0x3F000 2 0 k → verify_scalar (k * 4096) straddling ≡ true)))
build_mask_window-verifies_example =
    build_mask_window-verifies 0x3F000 2 0 straddling (omega arith) (omega arith) refl

-- Resources 3 and 4.
abbrev two_claimed : RegistryBits
two_claimed = 24 ∷ 0 ∷ 0 ∷ 0 ∷ 0 ∷ 0 ∷ 0 ∷ 0 ∷ []

ranges :
    (verify_range_contiguous two_claimed 0x3000 2 ≡ verdict true)
    × (verify_range_contiguous two_claimed 0x3000 3 ≡ verdict false)
    × (verify_range_contiguous two_claimed 0x4002_0000 1 ≡ past_the_end)
unfolding verify_range_contiguous verify_windows window_at build_mask_window mark_blocks mark
    verify_vector
ranges = (refl, refl, refl)
