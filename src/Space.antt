-- ===== src/Space.antt =====
-- Spaces, kernel/space.
pub mod Ids
pub mod Fresh
pub mod Tests
