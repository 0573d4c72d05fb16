-- ===== src/Failover.antt =====
-- lib/sql/occi/cFailover.cpp: the parameters of a session are set again after a failover.
pub mod Session
pub mod Altered
mod Reader
pub mod Reread
pub mod Samples
