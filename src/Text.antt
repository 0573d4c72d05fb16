-- ===== src/Text.antt =====
-- lib/nsPsCommon.cpp, lib/nsEffector.cpp and inc/nsEffector.h: functions on texts and numbers.
pub mod Wild
pub mod Names
pub mod Trim
pub mod Placeholders
pub mod Numbers
pub mod Cascade
pub mod Samples
