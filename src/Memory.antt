-- ===== src/Memory.antt =====
-- src/kernel/memory.rs: volatile access to one flat address space, and the guarded access.
-- A memory gives the byte at each address. Device registers whose read is not
-- what was written, and the flash, are outside the model.
mod Flat
pub mod Guard
pub mod Guarded
mod Tests
unfoldable pub use Flat.{Memory, peek_u32, poke_u32, words_at, reg_set_bit, reg_clr_bit}
pub use Flat.{peek-poke, peek-poke_apart, poke-elsewhere}
