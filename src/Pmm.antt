-- ===== src/Pmm.antt =====
-- Physical memory, kernel/mm/pmm.
pub mod Defs
pub mod Range
pub mod Chain
pub mod Unlink
pub mod Valid
pub mod Change
pub mod Take
pub mod Single
pub mod Scan
pub mod Marking
pub mod Runs
pub mod Tests
