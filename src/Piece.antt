-- ===== src/Piece.antt =====
-- lib/sql/occi/cPieceVct.cpp: values of unknown length are fetched piece by piece.
pub mod Callback
pub mod Fetch
pub mod Terminate
pub mod Samples
