-- ===== src/Mpx.antt =====
-- app/mpx/cAppLocal.cpp: a file of command lines is expanded, and the commands are run in batches;
-- app/mpx/cExtProc.cpp: the end of a child process.
pub mod Lines
pub mod Expand
pub mod Schedule
pub mod Child
pub mod Samples
