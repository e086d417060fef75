-- ===== src/Ipc/Calls.antt =====
-- Calls between tasks: kernel/ipc/msg.c and port.c, the parts of kernel/task/task.c and
-- kernel/sched/sched.c that end a wait, and the system calls Call, WaitOn, Reply and Hold.
pub mod Defs
pub mod Waits
pub mod Grant
pub mod Message
pub mod Held
pub mod Reply
pub mod Kill
