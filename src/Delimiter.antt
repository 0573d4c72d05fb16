-- ===== src/Delimiter.antt =====
-- inc/cDelimiter.h and lib/cDelimiter.cpp: separators and enclosures of the unloaded data.
pub mod Literal
pub mod Tokens
pub mod Forms
pub mod Agree
pub mod Fields
pub mod Records
pub mod Rows
pub mod Unload
pub mod Search
pub mod Configured
pub mod Samples
