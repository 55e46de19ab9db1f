-- ===== src/Text.antt =====
-- Operations of Rust's `str` that the crate uses, on bytes.
pub mod Decimal
pub mod Lines
pub mod Words
pub mod Affix
pub mod FilePath
pub mod Utf8
pub mod Search
