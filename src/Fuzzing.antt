-- ===== src/Fuzzing.antt =====
-- The stateful fuzzing engine, python/wake_sol/fuzzing.py.
pub mod Stats
pub mod Run
pub mod Engine
pub mod Keeps
pub mod Choice
pub mod Caps
pub mod Merging
pub mod Ending
