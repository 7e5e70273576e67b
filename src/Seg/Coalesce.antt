-- ===== src/Seg/Coalesce.antt =====
-- The four cases of coalesce of mm-segregated list(97:100)/mm.c, on the free lists and on the headers
-- and footers.
pub mod Next
pub mod Prev
