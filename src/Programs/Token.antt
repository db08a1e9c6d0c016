-- ===== src/Programs/Token.antt =====
-- SPL Token and Token-2022, python/wake_sol/_programs/token.py.
pub mod Decoders
pub mod Builders
pub mod Registered
pub mod Unpacked
pub mod Calls
pub mod Made
pub mod RoundTrip
