-- ===== src/Kernel.antt =====
-- src/kernel: the memory pools and the task switcher.
pub mod Pool
pub mod Multitask
mod Tests
