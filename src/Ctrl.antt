-- ===== src/Ctrl.antt =====
-- lib/sql/cCtrlFile.cpp and `vPutGrammerToCtrlFile` of lib/sql/occi/cUnloader.cpp: control files.
pub mod Grammar
pub mod Reads
pub mod Samples
