-- ===== src/Vmm.antt =====
-- Virtual memory: kern/vmm and kern/lib/pmap.c.
pub mod Phys
pub mod Table
pub mod Init
pub mod Map
pub mod Copy
