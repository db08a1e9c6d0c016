-- ===== src/Programs/System.antt =====
-- The System program, python/wake_sol/_programs/system.py.
pub mod Decoders
pub mod Builders
pub mod Registered
pub mod Calls
pub mod Made
pub mod RoundTrip
