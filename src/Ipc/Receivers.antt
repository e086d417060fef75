-- ===== src/Ipc/Receivers.antt =====
-- The receivers of a port: a task stands in the receiver queue of a port exactly while its wait slot is
-- there, and then it serves no call and is in none.
pub mod Kept
pub mod Ends
pub mod Messages
pub mod Calling
pub mod Calm
pub mod Answers
pub mod Holding
pub mod Killing
pub mod Others
pub mod Woken
pub mod Ended
