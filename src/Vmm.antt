-- ===== src/Vmm.antt =====
-- kernel/mm/vmm/vmm_region.c: the region list of an address space. The vector of regions is the
-- list of its elements in order, with the capacity beside it. Addresses and sizes are 32-bit words.
-- Calls that leave the region list (the page tables, the reference counts of the backing objects)
-- are recorded in order in `calls`.
pub mod Valid
pub mod Insert
pub mod Find
pub mod FreeVa
pub mod Remove
pub mod Defs
mod Tests
