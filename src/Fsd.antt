-- ===== src/Fsd.antt =====
-- The file service, user/services/fsd: its tables of open files and of clients.
pub mod Tables
pub mod Files
pub mod Close
pub mod Clients
pub mod Gone
pub mod Reap
pub mod Sweep
pub mod Tests
