-- ===== src/Mmu.antt =====
-- The memory management unit of the ARM port, arch/arm/mmu.
pub mod Asid
