-- ===== src/Codec.antt =====
-- The Borsh codec, python/wake_sol/_codec.
pub mod Result
pub mod Bytes
pub mod Aliases
pub mod AliasRange
pub mod Carriers
pub mod EnumTags
pub mod Utf8
pub mod Value
pub mod Node
pub mod Cursor
pub mod MinSize
pub mod SizeFuel
pub mod Read
pub mod Write
pub mod Entry
pub mod Safety
pub mod RoundTrip
