-- ===== src/FileSystem.antt =====
-- The file system, filesystemFUSE/submission: bitmap.c, block.c, inode.c, dirent.c and sfs.c.
pub mod Layout
pub mod Bitmap
pub mod Blocks
pub mod Inodes
pub mod Entries
pub mod Disk
pub mod Lookup
pub mod Create
pub mod Remove
pub mod Calls
pub mod Format
pub mod Data
pub mod CallTests
pub mod Tests
