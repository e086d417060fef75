-- ===== src/Sched.antt =====
-- The scheduler's queues, kernel/sched/sched.c: the ready tasks of each priority and the queues of
-- waiting tasks.
pub mod Defs
pub mod Tasks
pub mod Ready
pub mod TakeOut
pub mod Order
pub mod Pick
pub mod Enqueue
pub mod Takers
pub mod Wait
pub mod Tests
