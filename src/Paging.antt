-- ===== src/Paging.antt =====
-- lab2/queue.h and lab2/2-4.c: page replacement by FIFO and LRU over a queue of frames.
pub mod Queue
pub mod Simulate
pub mod Main
pub mod Random
pub mod Dialogue
pub mod Frames
pub mod Freeing
pub mod Recency
pub mod Lru
pub mod Examples
pub mod Fifo
pub mod Sorted
