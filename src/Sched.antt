-- ===== src/Sched.antt =====
-- crates/hros-kernel/src: the scheduler's structures and the timing ledger.
pub mod Queue
pub mod Shadow
pub mod Wcet
mod Tests
