-- ===== src/Replace.antt =====
-- app/xtru/getmeta/cFunctionalReplace.cpp: texts are rewritten by rules with fields of fixed width.
pub mod Rules
pub mod Pieces
pub mod Source
pub mod Correct
pub mod Samples
