-- ===== src/Args.antt =====
-- app/mkcrd/nsCompo: the switches of the command line of `mkcrd`.
pub mod Search
pub mod Taken
pub mod Samples
