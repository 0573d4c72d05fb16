-- ===== src/Stream.antt =====
-- inc/nsStreamLocator/nsStreamLocator.h, lib/nsStreamLocator/nsStreamLocator.cpp and cStreamLocator.cpp:
-- where the files of a table are written.
pub mod Macros
pub mod Initialize
pub mod Open
pub mod Segments
pub mod Total
pub mod Checked
pub mod Samples
