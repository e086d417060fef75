-- ===== src/Shm.antt =====
-- The byte rings in shared memory, include/zuzu/shm_ring.h and include/zuzu/shm_ring.c.
pub mod Ring
pub mod Bytes
pub mod Tests
