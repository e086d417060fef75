-- ===== src/Ipc.antt =====
-- Inter-process communication, kernel/ipc.
pub mod Events
pub mod Bound
pub mod Calls
pub mod Links
pub mod Receivers
pub mod Interleaving
pub mod Tickets
pub mod CallTests
