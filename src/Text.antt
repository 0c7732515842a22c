-- ===== src/Text.antt =====
-- Byte strings, and the library's conversions between numbers and text.
mod ByteString
pub mod Decimal
pub mod Stoi
pub use ByteString.{Bytes, codes, crlf, eqb_iff}
unfoldable pub use ByteString.{eqb, is_space}
