-- ===== src/Fs.antt =====
-- lab3/3.c: an EXT2-like file system in one file, with a shell.
pub mod Bytes
pub mod Disk
pub mod Bitmap
pub mod State
pub mod Space
pub mod Directory
pub mod Walk
pub mod Pointers
pub mod Create
pub mod Files
pub mod Setup
pub mod Commands
pub mod Shell
pub mod Table
pub mod Examples
