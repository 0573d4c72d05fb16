-- ===== src/Format.antt =====
-- The formatter of SQL texts, inc/sql/formatter.
pub mod Director
pub mod Layout
mod Samples
