-- ===== src/Dispatch.antt =====
-- lib/cRtn.cpp, inc/cPool.h and inc/cDispatcher.h: tasks are run by a bounded number of threads, until
-- one of them fails or the process is stopped.
pub mod Rtn
pub mod Pool
pub mod Synchronize
pub mod Steps
pub mod Threads
pub mod Failures
pub mod Invariant
pub mod Progress
pub mod Lost
pub mod Samples
