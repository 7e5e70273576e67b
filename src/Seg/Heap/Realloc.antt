-- ===== src/Seg/Heap/Realloc.antt =====
-- mm_realloc of mm-segregated list(97:100)/mm.c on the blocks of a heap: what the new block holds.
pub mod Around
pub mod Contents
pub mod Copied
pub mod Fresh
pub mod Rows
