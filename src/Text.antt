-- ===== src/Text.antt =====
-- What the program uses of Rust's strings: UTF-8 (`as_bytes`, `String::from_utf8_lossy`), `trim`,
-- `to_ascii_lowercase`, `replace`, `to_string` and `parse` of a `usize`. A text is the list of its
-- code points.
pub mod Utf8
pub mod Trim
pub mod Template
pub mod Decimal
