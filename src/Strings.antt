-- ===== src/Strings.antt =====
-- What the program uses of Go's `strings`, `unicode` and `unicode/utf8`, over strings of bytes.
pub mod Space
pub mod Utf8
pub mod Case
pub mod Decimal
