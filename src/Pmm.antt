-- ===== src/Pmm.antt =====
-- The physical memory manager: kern/pmm.
pub mod Table
pub mod Init
pub mod Alloc
pub mod Container
