-- ===== src/Fat.antt =====
-- drivers/fat: the FAT file system.
pub mod Disk
pub mod Table
pub mod Free
pub mod Mount
pub mod File
pub mod Dir
