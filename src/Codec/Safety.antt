-- ===== src/Codec/Safety.antt =====
-- Every call of `read` keeps the cursor in its buffer, and the depth guard ends every recursion.
mod Rules
pub mod Decode
pub use Rules.{IsWithin, Advances, Ends, IsSafe}
