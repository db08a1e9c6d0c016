-- ===== src/Errors.antt =====
-- Structured transaction errors, python/wake_sol/_errors.py and _errors_base.py.
pub mod Classes
pub mod Catalog
pub mod Resolve
pub mod Expect
pub mod Subclasses
pub mod Scoping
pub mod Coded
pub mod Accepting
