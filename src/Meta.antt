-- ===== src/Meta.antt =====
-- The metadata extraction, app/xtru/getmeta: the lists of what was read from the data dictionary.
pub mod Compare
pub mod Order
pub mod Total
pub mod Match
pub mod Catalog
pub mod Report
pub mod Matched
pub mod Refines
pub mod Reread
pub mod Validate
pub mod Opposite
mod Samples
