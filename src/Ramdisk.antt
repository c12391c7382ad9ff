-- ===== src/Ramdisk.antt =====
-- The in-memory file system of Assignment-4/fuse-2.9.3/example/Code/ramdisk/fuseLibrary.c.
pub mod Paths
pub mod Tree
pub mod Disk
pub mod Blocks
pub mod Files
pub mod Remove
pub mod Attributes
pub mod Io
pub mod Serve
pub mod Init
pub mod Safe
mod Tests
