-- ===== src/Programs.antt =====
-- The built-in programs, python/wake_sol/_programs.
pub mod Pack
pub mod PackRoundTrip
pub mod Made
pub mod Token
pub mod System
pub mod Ata
