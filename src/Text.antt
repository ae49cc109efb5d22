-- ===== src/Text.antt =====
-- What the program uses of Go's `strings`, `unicode` and `strconv`, over lists of bytes.
mod Split
mod Decimal
mod Search
unfoldable pub use Split.*
unfoldable pub use Decimal.*
unfoldable pub use Search.*
