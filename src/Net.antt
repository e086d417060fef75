-- ===== src/Net.antt =====
-- The parts of networking: the frame ring between a network driver and netd, and netd's local ports.
pub mod Frames
pub mod Ports
