-- ===== src/Ipc/Calls/Message.antt =====
-- The way of a message: MsgBufCopy, CallBlockAsSender, DeliverCallToReceiver, CallHandoffToReceiver,
-- PortReceive, and the system calls Call and WaitOn on a port.
use zuzu.Base.{
  ℕ, Bool, true, not, ◌||◌, Option, none, some, List, [], ◌∷◌, ◌++◌, ltb, ◌==◌, if◌then◌else◌, take,
  drop, is_some,
}
use zuzu.Handle.Defs.{Entry}
use zuzu.Sched.Defs.{wait_queue_add, is_empty}
use zuzu.Ipc.Calls.Defs.{
  TaskState, Port, Task, Kernel, Result, ok, fail, on_task, on_port, calls, set_r0, err_busy,
  err_dead, err_timeout, err_overflow, timeout_poll, msg_buf_size, sched_add, schedule, switch_next,
  arm_timeout, recompute_priority, boost_servers, notify, with_reply_cap, with_holder, with_senders,
}
use zuzu.Ipc.Calls.Waits.{leave_queue, sched_unblock, abort_wait, block_on}
use zuzu.Ipc.Calls.Grant.{
  validate_call_port, validate_grant, allocate_grant_slot, Granted, refused, granted,
}

abbrev pub with_buf : List ℕ → Task → Task
with_buf b x = record x { buf = some b }

-- The copy of `MsgBufCopy` between two buffers that exist.
unfoldable pub copy_between : Kernel → ℕ → Option (List ℕ) → Option (List ℕ) → ℕ → Kernel
copy_between k dst (some from) (some to) len =
    on_task k dst (with_buf (take len from ++ drop len to))
copy_between k dst none to len = k
copy_between k dst (some from) none len = k

-- `MsgBufCopy`.
unfoldable pub msg_buf_copy : Kernel → ℕ → ℕ → ℕ → Kernel
unfolding copy_between
msg_buf_copy k src dst len =
    if len == 0 || ltb msg_buf_size len
    then k
    else copy_between k dst (k.tasks src).buf (k.tasks dst).buf len

-- `if (PortHasPending(port)) ObserverNotify(&port->observers)`.
unfoldable pub notify_pending : Kernel → ℕ → Kernel
notify_pending k p = if is_empty (k.ports p).sender_queue then k else calls k (notify p)

-- The fields of a task that starts to wait for the answer to a call, in the two ways.
abbrev pub calls_on : ℕ → ℕ → Task → Task
calls_on p rc x = record x {
  waiting = true;
  blocked_port = some p;
  pending_reply_cap = some rc;
  state = TaskState.blocked;
}

abbrev pub with_message : ℕ → Option ℕ → Task → Task
with_message xlen grant x = record x { msg_xfer_len = xlen; pending_grant_handle = grant }

-- `CallBlockAsSender`.
unfoldable pub call_block_as_sender : Kernel → ℕ → ℕ → ℕ → ℕ → Option ℕ → ℕ → Kernel
unfolding notify_pending
call_block_as_sender k caller p rc xlen grant timeout =
    let senders = wait_queue_add (λ u. (k.tasks u).priority) (k.ports p).sender_queue caller in
    let k1 = on_task k caller (calls_on p rc) in
    let k2 = on_task k1 caller (with_message xlen grant) in
    let k3 = on_port k2 p (with_senders senders) in
    let k4 = calls (calls k3 (arm_timeout caller timeout)) (boost_servers p) in
    calls (notify_pending k4 p) schedule

abbrev pub add_server : ℕ → Port → Port
add_server rx q = record q { active_servers = q.active_servers ++ (rx ∷ []) }

abbrev pub serves : ℕ → Task → Task
serves p x = record x { serving_port = some p }

-- `rx->serving_port = port` and its place among the active servers; `none` is a NULL dereference.
unfoldable pub serve_on : Kernel → ℕ → Option ℕ → Kernel
serve_on k rx none = k
serve_on k rx (some p) = on_task (on_port k p (add_server rx)) rx (serves p)

abbrev pub receives : ℕ → ℕ → ℕ → Task → Task
receives marker xlen w x = record x { frame = record { r0 = 0; r1 = marker; r2 = xlen; r3 = w } }

-- `DeliverCallToReceiver`. `rc` is the reply object, `granted` the word of the granted handle.
unfoldable pub deliver_call : Kernel → ℕ → ℕ → Option ℕ → ℕ → ℕ → Kernel
unfolding msg_buf_copy serve_on
deliver_call k caller rx rc xlen granted_word =
    let marker = (k.tasks caller).port_marker in
    let k1 = on_task k rx (receives marker xlen granted_word) in
    let k2 = if xlen == 0 then k1 else msg_buf_copy k1 caller rx xlen in
    let k3 = serve_on k2 rx (k2.tasks caller).blocked_port in
    let k4 = on_task k3 rx (with_reply_cap rc) in
    let k5 = on_task k4 caller (with_holder (some rx)) in calls k5 (recompute_priority rx)

-- The end of `CallHandoffToReceiver`. `queued` says that the receiver may not run at once: it is
-- suspended, its space is frozen, or a task of its priority is ready.
unfoldable pub hand_over : Bool → Kernel → ℕ → Kernel
hand_over queued k rx =
    if queued then calls (calls k (sched_add rx)) schedule else calls k (switch_next rx)

-- `CallHandoffToReceiver` past the grant, which gave the word `w`.
unfoldable pub hand_to : Bool → Kernel → ℕ → ℕ → ℕ → ℕ → ℕ → ℕ → ℕ → Kernel
unfolding leave_queue deliver_call sched_unblock hand_over
hand_to queued k caller p rx rc xlen timeout w =
    let k1 = leave_queue k rx (k.tasks rx).wait_port in
    let k2 = on_task k1 caller (calls_on p rc) in
    let k3 = calls k2 (arm_timeout caller timeout) in
    hand_over queued (sched_unblock (deliver_call k3 caller rx (some rc) xlen w) rx) rx

-- `CallHandoffToReceiver`, by the result of the grant.
unfoldable pub handoff_by : Bool → ℕ → ℕ → ℕ → ℕ → ℕ → ℕ → Granted → Kernel
unfolding hand_to
handoff_by queued caller p rx rc xlen timeout (refused c k) = set_r0 k caller c
handoff_by queued caller p rx rc xlen timeout (granted w k) =
    hand_to queued k caller p rx rc xlen timeout w

-- `CallHandoffToReceiver` to the first receiver `rx`; on an error the code is in the frame of the
-- caller.
unfoldable pub call_handoff : Bool → Bool → Kernel → ℕ → ℕ → ℕ → ℕ → ℕ → Option ℕ → ℕ → Kernel
unfolding handoff_by
call_handoff memory queued k caller p rx rc xlen grant timeout =
    handoff_by queued caller p rx rc xlen timeout
      (allocate_grant_slot memory k (k.tasks caller).owner (k.tasks rx).owner grant)

-- The end of `SvcCall`, by the receivers of the port.
unfoldable pub call_on : Bool → Bool → Kernel → ℕ → ℕ → List ℕ → ℕ → Option ℕ → ℕ → Kernel
unfolding call_block_as_sender call_handoff
call_on memory queued k caller p [] xlen grant timeout =
    call_block_as_sender k caller p caller xlen grant timeout
call_on memory queued k caller p (rx ∷ _) xlen grant timeout =
    call_handoff memory queued k caller p rx caller xlen grant timeout

abbrev pub with_object : ℕ → ℕ → Task → Task
with_object caller marker x = record x {
  reply_cap_storage = record { caller_task = some caller; caller_tid = x.tid };
  port_marker = marker;
}

-- The reply object and the marker that `SvcCall` sets up.
unfoldable pub with_reply_object : Kernel → ℕ → Entry → Kernel
with_reply_object k caller e = on_task k caller (with_object caller e.marker)

-- `SvcCall` past the check of the port, whose entry is `e`, by the check of the grant.
unfoldable pub call_valid : Bool → Bool → Kernel → ℕ → Entry → ℕ → Option ℕ → ℕ → Option ℕ → Kernel
unfolding with_reply_object call_on
call_valid memory queued k caller e xlen grant timeout (some c) = set_r0 k caller c
call_valid memory queued k caller e xlen grant timeout none =
    if timeout == timeout_poll
    then set_r0 k caller err_timeout
    else call_on memory queued (with_reply_object k caller e) caller e.object
        (k.ports e.object).receiver_queue xlen grant timeout

unfoldable pub call_through : Bool → Bool → Kernel → ℕ → ℕ → Option ℕ → ℕ → Result Entry → Kernel
unfolding call_valid
call_through memory queued k caller xlen grant timeout (fail c) = set_r0 k caller c
call_through memory queued k caller xlen grant timeout (ok e) =
    call_valid memory queued k caller e xlen grant timeout
      (validate_grant k (k.tasks caller).owner grant)

-- `SvcCall` of the running task `caller`. The grant is `none` for the handle -1.
unfoldable pub svc_call : Bool → Bool → Kernel → ℕ → ℕ → ℕ → Option ℕ → ℕ → Kernel
unfolding call_through
svc_call memory queued k caller h xlen grant timeout =
    if ltb msg_buf_size xlen
    then set_r0 k caller err_overflow
    else call_through memory queued k caller xlen grant timeout
        (validate_call_port k (k.tasks caller).owner h)

abbrev pub no_grant : Task → Task
no_grant x = record x { pending_grant_handle = none }

-- What `PortReceive` does with the caller that it has taken off the queue, when the grant gave `w`.
unfoldable pub take_call : Kernel → ℕ → ℕ → ℕ → ℕ → Kernel
unfolding deliver_call notify_pending
take_call k server p caller w =
    let x = k.tasks caller in
    let k1 = on_task k caller no_grant in
    let k2 = deliver_call k1 caller server x.pending_reply_cap x.msg_xfer_len w in
    notify_pending (calls k2 (boost_servers p)) p

-- ListRemove of the first sender, which leaves `rest`.
abbrev pub pop_sender : Kernel → ℕ → List ℕ → Kernel
pop_sender k p rest = on_port k p (with_senders rest)

-- One turn of the loop of `PortReceive`, by the result of the grant: a caller that may not pass its
-- handle on is woken with the error and the loop goes on.
unfoldable pub receive_turn : (Kernel → Kernel) → ℕ → ℕ → ℕ → List ℕ → Granted → Kernel
unfolding abort_wait take_call
receive_turn next server p caller rest (refused c k) =
    next (abort_wait (pop_sender k p rest) caller c)
receive_turn next server p caller rest (granted w k) =
    take_call (pop_sender k p rest) server p caller w

-- The loop over the senders. `memory c` says whether the table of the server may grow for the grant
-- of the caller `c`.
unfoldable pub receive_from : (ℕ → Bool) → ℕ → ℕ → ℕ → List ℕ → Kernel → Kernel
unfolding block_on receive_turn
receive_from memory server p timeout [] k = block_on k server p timeout
receive_from memory server p timeout (caller ∷ rest) k =
    let x = k.tasks caller in
    receive_turn (receive_from memory server p timeout rest) server p caller rest
      (allocate_grant_slot (memory caller) k x.owner (k.tasks server).owner x.pending_grant_handle)

-- `PortReceive` of the running task `server`.
unfoldable pub port_receive : (ℕ → Bool) → Kernel → ℕ → ℕ → ℕ → Kernel
unfolding receive_from
port_receive memory k server p timeout =
    if not (k.ports p).alive
    then set_r0 k server err_dead
    else if is_some (k.tasks server).reply_cap
    then set_r0 k server err_busy
    else receive_from memory server p timeout (k.ports p).sender_queue k
