-- ===== src/Ipc/Calls/Waits.antt =====
-- The end of a wait: SchedUnblock, TaskAbortWait, TaskDetachServing, TaskClearReplyCap,
-- TaskCancelCall and SchedWakeTimedOut; and SchedBlockOn on the receivers of a port.
use zuzu.Base.{ℕ, Bool, true, false, Option, none, some, ◌==◌, if◌then◌else◌, is_some}
use zuzu.Sched.Defs.{wait_queue_add}
use zuzu.Ipc.Calls.Defs.{
  TaskState, Task, Kernel, on_task, on_port, calls, set_r0, minus, err_timeout, timeout_poll,
  sched_add, schedule, arm_timeout, leave_sleep, recompute_priority, boost_servers, no_wait_slot,
  unblocked, no_pending, not_serving, with_reply_cap, with_holder, not_held, drop_receiver,
  drop_sender, drop_server, with_receivers, drop_caller,
}

-- ListRemove of the wait slot of `t`, if it is in a queue.
unfoldable pub leave_queue : Kernel → ℕ → Option ℕ → Kernel
leave_queue k t none = k
leave_queue k t (some p) = on_task (on_port k p (drop_receiver t)) t no_wait_slot

-- `SchedUnblock`.
unfoldable pub sched_unblock : Kernel → ℕ → Kernel
unfolding leave_queue
sched_unblock k t =
    on_task (calls (leave_queue k t (k.tasks t).wait_port) (leave_sleep t)) t unblocked

-- `TaskAbortWait`.
unfoldable pub abort_wait : Kernel → ℕ → ℕ → Kernel
unfolding sched_unblock
abort_wait k t err =
    let k' = on_task (set_r0 k t err) t no_pending in calls (sched_unblock k' t) (sched_add t)

-- `TaskDetachServing`.
unfoldable pub detach_from : Kernel → ℕ → Option ℕ → Kernel
detach_from k t none = k
detach_from k t (some p) = on_task (on_port k p (drop_server t)) t not_serving

unfoldable pub detach_serving : Kernel → ℕ → Kernel
unfolding detach_from
detach_serving k t = detach_from k t (k.tasks t).serving_port

-- `TaskClearReplyCap`.
unfoldable pub clear_reply_cap : Kernel → ℕ → Kernel
unfolding detach_serving
clear_reply_cap k t =
    calls (detach_serving (on_task k t (with_reply_cap none)) t) (recompute_priority t)

-- `port->held[slot].caller = NULL`.
unfoldable pub drop_held : Kernel → ℕ → ℕ → Kernel
drop_held k p slot = on_port k p (drop_caller slot)

-- The first part of `TaskCancelCall`: out of the table of held calls, or off the sender queue that
-- the node of `t` is in, that of `blocked_port`.
unfoldable pub withdraw : Kernel → ℕ → Option ℕ → Option ℕ → Kernel
unfolding drop_held
withdraw k t (some p) waits_on = on_task (drop_held k p (k.tasks t).held_slot) t not_held
withdraw k t none (some p) = on_port k p (drop_sender t)
withdraw k t none none = k

-- Its second part, by the reply holder and the port that `t` waits on.
unfoldable pub forget_holder : Kernel → ℕ → Bool → Option ℕ → Option ℕ → Kernel
unfolding clear_reply_cap
forget_holder k t true (some s) waits_on = on_task (clear_reply_cap k s) t (with_holder none)
forget_holder k t true none (some p) = calls k (boost_servers p)
forget_holder k t true none none = k
forget_holder k t false holder waits_on = k

-- `TaskCancelCall`. A task whose node is in no queue is in no sender queue either, and erasing it
-- changes nothing.
unfoldable pub cancel_call : Kernel → ℕ → Kernel
unfolding withdraw forget_holder
cancel_call k t =
    let x = k.tasks t in
    let k' = withdraw k t x.held_port x.blocked_port in
    on_task (forget_holder k' t (is_some x.pending_reply_cap) x.reply_holder x.blocked_port) t
      no_pending

abbrev pub timed_out : Task → Task
timed_out x = record x { frame = record x.frame { r1 = 0; r3 = minus 1 } }

-- `SchedWakeTimedOut`, of a task that the sleep wheel has let go.
unfoldable pub wake_timed_out : Kernel → ℕ → Kernel
unfolding cancel_call sched_unblock
wake_timed_out k t =
    let call = on_task (cancel_call k t) t timed_out in
    let k' = if (k.tasks t).waiting then call else k in
    calls (sched_unblock (set_r0 k' t err_timeout) t) (sched_add t)

abbrev pub waits_at : ℕ → Task → Task
waits_at p x = record x { wait_port = some p; state = TaskState.blocked }

-- `SchedBlockOn(&port->receiver_queue, timeout)` of the running task `t`.
unfoldable pub block_on : Kernel → ℕ → ℕ → ℕ → Kernel
block_on k t p timeout =
    let receivers = wait_queue_add (λ u. (k.tasks u).priority) (k.ports p).receiver_queue t in
    let blocked_task = on_task (on_port k p (with_receivers receivers)) t (waits_at p) in
    if timeout == timeout_poll
    then set_r0 k t err_timeout
    else calls (calls blocked_task (arm_timeout t timeout)) schedule
