-- ===== src/Prelude/Text.antt =====
-- Text as bytes: comparison and splitting, trimming, and decimal numbers.
mod Core
mod Trim
mod Decimal
mod Cuts
unfoldable pub use Core.*
unfoldable pub use Trim.*
unfoldable pub use Decimal.*
unfoldable pub use Cuts.*
