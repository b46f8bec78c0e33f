-- ===== src/Fs.antt =====
-- The file system simulator of p4: bitmaps, allocation of inodes and blocks, directories and files.
pub mod Bitmap
pub mod State
pub mod Alloc
pub mod Access
pub mod Directory
pub mod File
pub mod Links
pub mod Mount
pub mod Counts
pub mod Shell
mod Tests
