-- ===== src/Caps.antt =====
-- src/capabilities: the registry of claimed resources, the addresses that it guards, the tokens.
pub mod Registry
pub mod Access
pub mod Tokens
pub mod Audit
pub mod Mask
mod Tests
