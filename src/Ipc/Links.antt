-- ===== src/Ipc/Links.antt =====
-- Where a calling task is: in the queue of a port, with the server that answers it, on hold, or not
-- in a call; and what the operations of Ipc/Calls do to that.
pub mod Place
pub mod Frames
pub mod Ends
pub mod Parts
pub mod Cancel
pub mod Deliver
pub mod Grants
pub mod Queue
pub mod Receive
pub mod Block
pub mod Call
pub mod HoldIn
pub mod Hold
pub mod Answer
pub mod Replying
