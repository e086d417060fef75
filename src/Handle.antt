-- ===== src/Handle.antt =====
-- kernel/space/handle.h and kernel/space/handle.c: a space's table of handles, the capabilities by
-- which its tasks name kernel objects. An entry's address is its slot index, so `HandleEntryIndex`
-- is the identity.
pub mod Defs
pub mod Slots
pub mod Block
pub mod Write
pub mod Copy
pub mod Release
mod Tests
