-- ===== src/Ipc/Calls/Defs.antt =====
-- Tasks, ports and held calls, the fields that kernel/ipc/msg.c and port.c use (task.h, port.h), and
-- the writes to them. A task, a port and a space are named by numbers, for their addresses; a
-- ReplyObject is always the `reply_cap_storage` of a task and is named by that task.
use zuzu.Base.{ℕ, ◌-◌, ◌^◌, Bool, Option, none, some, List, [], ◌∷◌, ◌++◌, ◌==◌}
use zuzu.Handle.Defs.{HandleTable, Refs}
use zuzu.Sched.Defs.{update, erase}

-- `TaskState`.
pub data TaskState : Type 0 where
  ready running blocked zombie frozen faulted : TaskState

-- `ReplyObject`.
pub record Reply : Type 0 where
  pub caller_task : Option ℕ
  pub caller_tid : ℕ

-- The registers r0 to r3 of a trap frame, words of 32 bits.
pub record Frame : Type 0 where
  pub r0 : ℕ
  pub r1 : ℕ
  pub r2 : ℕ
  pub r3 : ℕ

-- The fields of `TaskObject`. `waiting` is `ipc_state == IPC_WAITING`; `wait_port` is the port in whose
-- receiver queue the wait slot is; `buf` is the message buffer, `none` without one.
pub record Task : Type 0 where
  pub tid : ℕ
  pub state : TaskState
  pub owner : ℕ
  pub priority : ℕ
  pub frame : Frame
  pub buf : Option (List ℕ)
  pub waiting : Bool
  pub blocked_port : Option ℕ
  pub reply_cap_storage : Reply
  pub pending_grant_handle : Option ℕ
  pub pending_reply_cap : Option ℕ
  pub reply_cap : Option ℕ
  pub reply_holder : Option ℕ
  pub msg_xfer_len : ℕ
  pub port_marker : ℕ
  pub wait_port : Option ℕ
  pub serving_port : Option ℕ
  pub serving_handle : ℕ
  pub held_port : Option ℕ
  pub held_slot : ℕ

-- `HeldCall`.
pub record HeldCall : Type 0 where
  pub caller : Option ℕ
  pub caller_tid : ℕ
  pub gen : ℕ

-- `PortObject`; the queues first to last, `held` `none` while the table is not allocated.
pub record Port : Type 0 where
  pub alive : Bool
  pub sender_queue : List ℕ
  pub receiver_queue : List ℕ
  pub active_servers : List ℕ
  pub held : Option (ℕ → HeldCall)

-- Calls of parts of the kernel that are not modelled here: the run queues, the sleep wheel, the
-- priority inheritance and the observers.
pub data Effect : Type 0 where
  sched_add : ℕ → Effect
  schedule : Effect
  switch_next : ℕ → Effect
  arm_timeout : ℕ → ℕ → Effect
  leave_sleep : ℕ → Effect
  recompute_priority : ℕ → Effect
  boost_servers : ℕ → Effect
  notify : ℕ → Effect

pub record Kernel : Type 0 where
  pub tasks : ℕ → Task
  pub ports : ℕ → Port
  pub tables : ℕ → HandleTable
  pub refs : Refs
  pub effects : List Effect

abbrev pub msg_buf_size : ℕ
msg_buf_size = 512

abbrev pub held_slots : ℕ
held_slots = 64

abbrev pub timeout_poll : ℕ
timeout_poll = 0

-- A negative error code as a word; -1 is also the handle that names nothing.
abbrev pub minus : ℕ → ℕ
minus n = 2 ^ 32 - n

abbrev pub err_noperm : ℕ
err_noperm = minus 1

abbrev pub err_noent : ℕ
err_noent = minus 2

abbrev pub err_busy : ℕ
err_busy = minus 3

abbrev pub err_nomem : ℕ
err_nomem = minus 4

abbrev pub err_badtype : ℕ
err_badtype = minus 5

abbrev pub err_badarg : ℕ
err_badarg = minus 6

abbrev pub err_dead : ℕ
err_dead = minus 9

abbrev pub err_timeout : ℕ
err_timeout = minus 10

abbrev pub err_overflow : ℕ
err_overflow = minus 11

abbrev pub err_badhandle : ℕ
err_badhandle = minus 12

-- A value or an error code.
pub data Result (A : Type 0) : Type 0 where
  ok : A → Result A
  fail : ℕ → Result A

-- Writes to one task, to one port, and a call of a part that is not modelled.
abbrev pub on_task : Kernel → ℕ → (Task → Task) → Kernel
on_task k t f = record k { tasks = update k.tasks t (f (k.tasks t)) }

abbrev pub on_port : Kernel → ℕ → (Port → Port) → Kernel
on_port k p f = record k { ports = update k.ports p (f (k.ports p)) }

abbrev pub calls : Kernel → Effect → Kernel
calls k e = record k { effects = k.effects ++ (e ∷ []) }

abbrev pub with_r0 : ℕ → Task → Task
with_r0 v t = record t { frame = record t.frame { r0 = v } }

-- ArchSetInFrame(frame, 0, v), on the frame of `t`.
abbrev pub set_r0 : Kernel → ℕ → ℕ → Kernel
set_r0 k t v = on_task k t (with_r0 v)

abbrev pub is_zombie : TaskState → Bool
is_zombie TaskState.zombie = Bool.true
is_zombie _ = Bool.false

-- `p == q` for pointers, where `p` may be NULL.
abbrev pub names : Option ℕ → ℕ → Bool
names none q = Bool.false
names (some p) q = p == q

-- Writes to single fields of a task or of a port.
abbrev pub no_wait_slot : Task → Task
no_wait_slot x = record x { wait_port = none }

abbrev pub unblocked : Task → Task
unblocked x = record x { waiting = Bool.false; blocked_port = none; state = ready }

abbrev pub no_pending : Task → Task
no_pending x = record x { pending_reply_cap = none }

abbrev pub not_serving : Task → Task
not_serving x = record x { serving_port = none }

abbrev pub with_reply_cap : Option ℕ → Task → Task
with_reply_cap rc x = record x { reply_cap = rc }

abbrev pub with_holder : Option ℕ → Task → Task
with_holder s x = record x { reply_holder = s }

abbrev pub not_held : Task → Task
not_held x = record x { held_port = none }

abbrev pub drop_receiver : ℕ → Port → Port
drop_receiver t q = record q { receiver_queue = erase t q.receiver_queue }

abbrev pub drop_sender : ℕ → Port → Port
drop_sender t q = record q { sender_queue = erase t q.sender_queue }

abbrev pub drop_server : ℕ → Port → Port
drop_server t q = record q { active_servers = erase t q.active_servers }

abbrev pub with_senders : List ℕ → Port → Port
with_senders r q = record q { sender_queue = r }

abbrev pub with_receivers : List ℕ → Port → Port
with_receivers r q = record q { receiver_queue = r }

abbrev pub with_servers : List ℕ → Port → Port
with_servers r q = record q { active_servers = r }

abbrev pub without_caller : Option (ℕ → HeldCall) → ℕ → Option (ℕ → HeldCall)
without_caller none slot = none
without_caller (some h) slot = some (update h slot (record (h slot) { caller = none }))

abbrev pub drop_caller : ℕ → Port → Port
drop_caller slot q = record q { held = without_caller q.held slot }
