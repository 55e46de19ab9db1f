-- ===== src/Collections.antt =====
-- The ordered containers of Rust's standard library that the crate uses.
pub mod Key
pub mod BTreeMap
