-- ===== src/Ipc/Calls/Reply.antt =====
-- The answer to a call: ReplyDeliverToCaller, ReplyFailCaller and the system calls Reply and, on a
-- port, WaitOn.
use zuzu.Base.{ℕ, Bool, false, not, ◌&&◌, Option, none, some, ltb, ◌==◌, if◌then◌else◌, is_some}
use zuzu.Handle.Defs.{Entry, lookup}
use zuzu.Ipc.Calls.Defs.{
  TaskState, Task, Kernel, Result, ok, fail, on_task, calls, set_r0, minus, is_zombie, err_noperm,
  err_badtype, err_dead, err_overflow, err_badhandle, msg_buf_size, sched_add, leave_sleep,
}
use zuzu.Ipc.Calls.Waits.{clear_reply_cap}
use zuzu.Ipc.Calls.Grant.{may_wait, is_port, grant_handle_across, Granted, refused, granted}
use zuzu.Ipc.Calls.Message.{msg_buf_copy, port_receive}
use zuzu.Ipc.Calls.Held.{port_take_held, still_calls}

-- The end of both answers: the caller waits no longer and is ready.
abbrev pub answered : Task → Task
answered x = record x {
  waiting = false;
  blocked_port = none;
  pending_reply_cap = none;
  reply_holder = none;
  state = TaskState.ready;
}

abbrev pub results : ℕ → ℕ → ℕ → Task → Task
results r0 r1 r3 x = record x { frame = record x.frame { r0 = r0; r1 = r1; r3 = r3 } }

-- `ReplyDeliverToCaller` by the running task `server`.
unfoldable pub reply_deliver : Kernel → ℕ → ℕ → ℕ → ℕ → Kernel
unfolding msg_buf_copy
reply_deliver k server target xlen w =
    let k1 = on_task k target (results 0 xlen w) in
    let k2 = if xlen == 0 then k1 else msg_buf_copy k1 server target xlen in
    calls (on_task (calls k2 (leave_sleep target)) target answered) (sched_add target)

-- `ReplyFailCaller`.
unfoldable pub reply_fail : Kernel → ℕ → ℕ → Kernel
reply_fail k target err =
    let k1 = on_task k target (results err 0 (minus 1)) in
    calls (on_task (calls k1 (leave_sleep target)) target answered) (sched_add target)

-- The answer to a call that was on hold, by the grant and by what `PortTakeHeld` gave.
unfoldable pub reply_granted : ℕ → ℕ → ℕ → Granted → Kernel
unfolding reply_deliver reply_fail
reply_granted server xlen target (refused c k) = set_r0 (reply_fail k target c) server c
reply_granted server xlen target (granted w k) =
    set_r0 (reply_deliver k server target xlen w) server 0

unfoldable pub reply_taken : Bool → ℕ → ℕ → Option ℕ → Result ℕ × Kernel → Kernel
unfolding reply_granted
reply_taken memory server xlen grant (fail c, k) = set_r0 k server c
reply_taken memory server xlen grant (ok target, k) =
    reply_granted server xlen target
      (grant_handle_across memory k (k.tasks server).owner (k.tasks target).owner grant)

-- May the call behind the reply object `rc` still be answered?
unfoldable pub answerable : Kernel → ℕ → ℕ → Bool
unfolding still_calls
answerable k rc target = still_calls k rc target && not (is_zombie (k.tasks target).state)

-- What a `SvcReply` on the current call leaves for its end: an error for the frame, or success.
unfoldable pub answer_granted : ℕ → ℕ → ℕ → Granted → Option ℕ × Kernel
unfolding reply_deliver reply_fail clear_reply_cap
answer_granted server xlen target (refused c k) =
    (some c, reply_fail (clear_reply_cap k server) target c)
answer_granted server xlen target (granted w k) =
    (none, reply_deliver (clear_reply_cap k server) server target xlen w)

unfoldable pub answer : Bool → Kernel → ℕ → ℕ → Option ℕ → ℕ → Option ℕ × Kernel
unfolding answer_granted
answer memory k server xlen grant target =
    answer_granted server xlen target
      (grant_handle_across memory k (k.tasks server).owner (k.tasks target).owner grant)

-- The call that `server` holds, with the reply object `rc`. A stale one is forgotten, which is an
-- error only for a reply that does not go on to receive.
unfoldable pub answer_current :
    Bool → Kernel → ℕ → ℕ → Option ℕ → Bool → ℕ → Option ℕ → Option ℕ × Kernel
unfolding answerable answer clear_reply_cap
answer_current memory k server xlen grant receives rc none =
    ((if receives then none else some err_dead), clear_reply_cap k server)
answer_current memory k server xlen grant receives rc (some target) =
    if answerable k rc target
    then answer memory k server xlen grant target
    else ((if receives then none else some err_dead), clear_reply_cap k server)

-- The middle part of `SvcReply`, by the reply object; without one only a receive may follow.
unfoldable pub answer_by : Bool → Kernel → ℕ → ℕ → Option ℕ → Bool → Option ℕ → Option ℕ × Kernel
unfolding answer_current
answer_by memory k server xlen grant receives none =
    ((if receives then none else some err_badhandle), k)
answer_by memory k server xlen grant receives (some rc) =
    answer_current memory k server xlen grant receives rc (k.tasks rc).reply_cap_storage.caller_task

abbrev pub with_serving : ℕ → Task → Task
with_serving h x = record x { serving_handle = h }

-- The end of `SvcReply`: the error, or the receive on the port of the entry, or success.
unfoldable pub reply_end : (ℕ → Bool) → ℕ → Option (ℕ × Entry) → ℕ → Option ℕ × Kernel → Kernel
unfolding port_receive
reply_end memory server receive timeout (some c, k) = set_r0 k server c
reply_end memory server none timeout (none, k) = set_r0 k server 0
reply_end memory server (some (h, e)) timeout (none, k) =
    port_receive memory (on_task k server (with_serving h)) server e.object timeout

-- `SvcReply` past the check of the handle to receive on.
unfoldable pub reply_on :
    Bool → (ℕ → Bool) → Kernel → ℕ → ℕ → Option ℕ → Option (ℕ × Entry) → ℕ → Kernel
unfolding answer_by reply_end
reply_on memory growth k server xlen grant receive timeout =
    if ltb msg_buf_size xlen
    then set_r0 k server err_overflow
    else reply_end growth server receive timeout
        (answer_by memory k server xlen grant (is_some receive) (k.tasks server).reply_cap)

-- The checks of that handle.
unfoldable pub receive_entry : Option Entry → Result Entry
receive_entry none = fail err_badhandle
receive_entry (some e) =
    if not (is_port e.type)
    then fail err_badtype
    else if not (may_wait e)
    then fail err_noperm
    else ok e

-- `SvcReply` that goes on to receive, by the check of the handle `h` to receive on.
unfoldable pub reply_through :
    Bool → (ℕ → Bool) → Kernel → ℕ → ℕ → Option ℕ → ℕ → ℕ → Result Entry → Kernel
unfolding reply_on
reply_through memory growth k server xlen grant h timeout (fail c) = set_r0 k server c
reply_through memory growth k server xlen grant h timeout (ok e) =
    reply_on memory growth k server xlen grant (some (h, e)) timeout

-- `SvcReply` of the running task `server`: the length, the grant, the handle to receive on, with
-- `none` for -1, and r3, which is the ticket of a held call or the timeout of the receive.
unfoldable pub svc_reply : Bool → (ℕ → Bool) → Kernel → ℕ → ℕ → Option ℕ → Option ℕ → ℕ → Kernel
unfolding reply_taken reply_through receive_entry
svc_reply memory growth k server xlen grant none r3 =
    if r3 == 0
    then reply_on memory growth k server xlen grant none r3
    else if ltb msg_buf_size xlen
    then set_r0 k server err_overflow
    else reply_taken memory server xlen grant (port_take_held k server r3)
svc_reply memory growth k server xlen grant (some h) r3 =
    reply_through memory growth k server xlen grant h r3
      (receive_entry (lookup (k.tables (k.tasks server).owner) h))
