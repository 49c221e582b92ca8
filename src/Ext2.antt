-- ===== src/Ext2.antt =====
-- The ext2-lite file system of OSLab/Filesystems/Code.
pub mod Bitmap
pub mod Groups
pub mod Mount
pub mod Checks
pub mod Balloc
pub mod Ialloc
pub mod Dir
pub mod Dirfile
pub mod Inode
pub mod Namei
pub mod Sample
pub mod Super
