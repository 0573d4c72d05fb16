-- ===== src/Fetch.antt =====
-- lib/sql/occi/cStmt.cpp and lib/sql/occi/cUnloader.cpp: the rows of the statements are fetched in bulks.
pub mod Loop
pub mod Counts
pub mod Samples
