-- ===== src/Precompiles.antt =====
-- Signature-verification precompiles, python/wake_sol/_precompiles.py.
pub mod Claims
pub mod Placement
pub mod Assembly
pub mod Find
pub mod Order
