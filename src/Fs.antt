-- ===== src/Fs.antt =====
-- The file system of the third shell (a3/fs/).
pub mod Block
pub mod Cache
pub mod Capacity
pub mod Copying
pub mod Directory
pub mod File
pub mod Filesys
pub mod Fragmentation
pub mod FreeMap
pub mod Inode
pub mod Tests
pub mod Recovery
pub mod Sample
