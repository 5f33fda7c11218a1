-- ===== src/Heap.antt =====
-- SP_LAB3/src: the heap manager's chunks.
mod Tests
pub mod Chunk
pub mod Links
pub mod Blocks
pub mod FreeList
pub mod Manager
pub mod Malloc
pub mod Bins
