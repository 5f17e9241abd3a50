-- ===== src/Support.antt =====
-- include/kotatsu/support: text and Unicode.
pub mod Text
pub mod Glob
pub mod Unicode
