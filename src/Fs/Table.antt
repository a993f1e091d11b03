-- ===== src/Fs/Table.antt =====
-- The table of open files of lab3/3.c, and what changes it.
pub mod Blocks
pub mod Pointers
pub mod Files
pub mod Commands
pub mod Slots
pub mod Opening
pub mod Sessions
pub mod Examples
