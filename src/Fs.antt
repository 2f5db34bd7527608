-- ===== src/Fs.antt =====
-- The file system, kern/fs.
pub mod Result
pub mod Cache
pub mod Log
pub mod Session
pub mod Bitmap
pub mod Inode
pub mod Path
pub mod Dir
pub mod File
pub mod Namei
pub mod Sysfile
