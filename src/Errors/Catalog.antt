-- ===== src/Errors/Catalog.antt =====
-- The catalogs of _errors_catalog.
mod Anchor
mod Solana
mod System
mod Token
unfoldable pub use Anchor.*
unfoldable pub use Solana.*
unfoldable pub use System.*
unfoldable pub use Token.*
