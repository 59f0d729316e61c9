-- ===== src/Filesystem.antt =====
-- The file system module, src/filesystem/src/filesystem.c.
pub mod Bitmap
pub mod Dump
pub mod Allocation
pub mod Counting
pub mod Storage
pub mod Reading
pub mod Placing
pub mod Service
pub mod Keeping
pub mod Archive
pub mod Tests
