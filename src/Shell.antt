-- ===== src/Shell.antt =====
-- The shell of the file system: src/entrylist.c and src/ext2_shell.c.
pub mod List
pub mod Sort
pub mod Files
pub mod Listing
pub mod Modes
pub mod Line
pub mod Commands
