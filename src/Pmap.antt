-- ===== src/Pmap.antt =====
-- kern/pmap.c: physical pages and page tables.
pub mod Alloc
pub mod Paging
pub mod Space
pub mod Check
pub mod Setup
pub mod UserMem
