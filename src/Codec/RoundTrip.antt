-- ===== src/Codec/RoundTrip.antt =====
-- What the codec writes it reads back.
pub mod Reads
mod Shape
pub use Shape.{Fits, FitsItems, FitsFields}
pub mod Codes
mod Leaves
mod Sequences
mod Composites
mod Defined
pub mod Main
