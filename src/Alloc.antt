-- ===== src/Alloc.antt =====
-- lab2/2-3.c: the simulator of contiguous memory allocation.
pub mod State
pub mod Sort
pub mod Fit
pub mod Free
pub mod Menu
pub mod Invariant
pub mod Examples
