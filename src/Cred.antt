-- ===== src/Cred.antt =====
-- The credentials of app/mkcrd: the connect string and its input at the terminal.
pub mod Account
pub mod Input
pub mod Split
pub mod Fits
pub mod Answers
mod Samples
