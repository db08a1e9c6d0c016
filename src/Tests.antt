-- ===== src/Tests.antt =====
-- Runs of the definitions, and the theorems at concrete inputs.
mod Samples
mod Codec
mod Builder
mod Interface
mod Labels
mod Precompiles
mod Programs
mod Fuzzing
mod Errors
mod Coverage
mod Types
mod Runner
