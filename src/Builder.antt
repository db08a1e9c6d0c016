-- ===== src/Builder.antt =====
-- The helpers of generated builders, python/wake_sol/_codec/builder.py.
pub mod Args
pub mod Structs
pub mod Metas
pub mod Names
pub mod ArgsRoundTrip
pub mod StructsRoundTrip
pub mod MetasAligned
pub mod NamesBack
