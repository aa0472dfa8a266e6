-- ===== src/Caps/Mask/Range/Claimed.antt =====
-- crates/hros-cap/src/lib.rs, `registry::verify_range_contiguous`: the range check and the resources
-- that are claimed.
use hr_os.Prelude.{Bool}
