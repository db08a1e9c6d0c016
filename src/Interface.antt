-- ===== src/Interface.antt =====
-- Decoding instructions by program, python/wake_sol/_interface.py.
pub mod Defs
pub mod Registry
pub mod Match
pub mod Slots
pub mod Dispatch
pub mod Returns
pub mod Reflect
pub mod Overridden
