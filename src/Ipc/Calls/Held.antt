-- ===== src/Ipc/Calls/Held.antt =====
-- Calls on hold: the tickets of msg.h, PortHoldCurrent and PortTakeHeld, and the system call Hold.
use zuzu.Base.{
  ℕ, zero, suc, ◌+◌, ◌*◌, ◌/◌, ◌%◌, Bool, not, ◌||◌, ◌&&◌, Option, none, some, ◌==◌, if◌then◌else◌,
  is_some,
}
use zuzu.Handle.Defs.{Entry, table_get, handle_index}
use zuzu.Sched.Defs.{update}
use zuzu.Ipc.Calls.Defs.{
  Task, HeldCall, Port, Kernel, Result, ok, fail, on_task, on_port, set_r0, held_slots, err_noperm,
  err_noent, err_nomem, err_badarg, err_dead, err_badhandle, not_held,
}
use zuzu.Ipc.Calls.Waits.{clear_reply_cap, drop_held}
use zuzu.Ipc.Calls.Grant.{may_wait, is_port}

-- `TICKET_PACK`, `TICKET_INDEX`, `TICKET_SLOT` and `TICKET_GEN`; the fields share no bit.
unfoldable pub ticket_pack : ℕ → ℕ → ℕ → ℕ
ticket_pack index slot gen = gen * 65536 + slot * 1024 + index % 1024

unfoldable pub ticket_index : ℕ → ℕ
ticket_index t = t % 1024

unfoldable pub ticket_slot : ℕ → ℕ
ticket_slot t = t / 1024 % 64

unfoldable pub ticket_gen : ℕ → ℕ
ticket_gen t = t / 65536 % 32768

abbrev pub no_calls : ℕ → HeldCall
no_calls i = record { caller = none; caller_tid = 0; gen = 0 }

-- The table of held calls, which `KZAlloc` gives if there is `memory` for it.
unfoldable pub held_table : Bool → Option (ℕ → HeldCall) → Option (ℕ → HeldCall)
held_table memory (some h) = some h
held_table memory none = if memory then some no_calls else none

-- The first slot from `i` on without a caller, of the `n` slots that are left.
unfoldable pub free_slot : (ℕ → HeldCall) → ℕ → ℕ → Option ℕ
free_slot h zero i = none
free_slot h (suc n) i =
    let next = free_slot h n (i + 1) in if is_some (h i).caller then next else some i

-- The generation that a slot gets, never 0.
unfoldable pub next_gen : ℕ → ℕ
next_gen gen = if (gen + 1) % 32768 == 0 then 1 else (gen + 1) % 32768

abbrev pub with_held : (ℕ → HeldCall) → Port → Port
with_held h q = record q { held = some h }

abbrev pub on_hold_at : ℕ → ℕ → Task → Task
on_hold_at p slot x = record x { reply_holder = none; held_port = some p; held_slot = slot }

-- The record of the call in `slot`, the caller on hold, and the ticket.
unfoldable pub hold_in : Kernel → ℕ → ℕ → ℕ → (ℕ → HeldCall) → ℕ → Result ℕ × Kernel
unfolding next_gen ticket_pack handle_index clear_reply_cap
hold_in k server p caller h slot =
    let gen = next_gen (h slot).gen in
    let call : HeldCall = record {
      caller = some caller;
      caller_tid = (k.tasks caller).tid;
      gen = gen;
    } in
    let k1 = on_port k p (with_held (update h slot call)) in
    let k2 = on_task k1 caller (on_hold_at p slot) in
    (
      ok (ticket_pack (handle_index (k.tasks server).serving_handle) slot gen),
      clear_reply_cap k2 server,
    )

-- The hold in the slot that was found; `none` is a full table.
unfoldable pub hold_found : Kernel → ℕ → ℕ → ℕ → (ℕ → HeldCall) → Option ℕ → Result ℕ × Kernel
unfolding hold_in
hold_found k server p caller h none = (fail err_nomem, on_port k p (with_held h))
hold_found k server p caller h (some slot) = hold_in k server p caller h slot

-- The search for a slot in the table of the port.
unfoldable pub hold_with : Kernel → ℕ → ℕ → ℕ → Option (ℕ → HeldCall) → Result ℕ × Kernel
unfolding free_slot hold_found
hold_with k server p caller none = (fail err_nomem, k)
hold_with k server p caller (some h) = hold_found k server p caller h (free_slot h held_slots 0)

-- Does the reply object that `server` holds still stand for a call of `caller`?
unfoldable pub still_calls : Kernel → ℕ → ℕ → Bool
still_calls k rc caller =
    (k.tasks caller).tid == (k.tasks rc).reply_cap_storage.caller_tid && (k.tasks caller).waiting

-- The check of the caller in `PortHoldCurrent`; `rc` names the reply object.
unfoldable pub hold_caller : Bool → Kernel → ℕ → ℕ → ℕ → Option ℕ → Result ℕ × Kernel
unfolding still_calls held_table hold_with clear_reply_cap
hold_caller memory k server p rc none = (fail err_dead, clear_reply_cap k server)
hold_caller memory k server p rc (some caller) =
    if not (still_calls k rc caller)
    then (fail err_dead, clear_reply_cap k server)
    else hold_with k server p caller (held_table memory (k.ports p).held)

unfoldable pub hold_by : Bool → Kernel → ℕ → Option ℕ → Option ℕ → Result ℕ × Kernel
unfolding hold_caller
hold_by memory k server (some rc) (some p) =
    hold_caller memory k server p rc (k.tasks rc).reply_cap_storage.caller_task
hold_by memory k server (some rc) none = (fail err_badarg, k)
hold_by memory k server none port = (fail err_badarg, k)

-- `PortHoldCurrent`: the ticket or the error, and the state after it.
unfoldable pub port_hold_current : Bool → Kernel → ℕ → Result ℕ × Kernel
unfolding hold_by
port_hold_current memory k server =
    hold_by memory k server (k.tasks server).reply_cap (k.tasks server).serving_port

abbrev pub has_ticket : ℕ → Task → Task
has_ticket ticket x = record x { frame = record x.frame { r0 = 0; r1 = ticket } }

-- `SvcHold`, by the result of `PortHoldCurrent`.
unfoldable pub held_result : ℕ → Result ℕ × Kernel → Kernel
held_result server (ok ticket, k) = on_task k server (has_ticket ticket)
held_result server (fail c, k) = set_r0 k server c

unfoldable pub svc_hold : Bool → Kernel → ℕ → Kernel
unfolding port_hold_current held_result
svc_hold memory k server = held_result server (port_hold_current memory k server)

-- `PortTakeHeld` past the check of the slot, which holds a call of `caller`.
unfoldable pub take_caller : Kernel → ℕ → ℕ → HeldCall → ℕ → Result ℕ × Kernel
unfolding drop_held
take_caller k p slot call caller =
    if (k.tasks caller).tid == call.caller_tid && (k.tasks caller).waiting
    then (ok caller, on_task (drop_held k p slot) caller not_held)
    else (fail err_noent, k)

-- The check of the slot against the generation of the ticket, by its caller.
unfoldable pub take_slot : Kernel → ℕ → ℕ → ℕ → HeldCall → Option ℕ → Result ℕ × Kernel
unfolding take_caller
take_slot k p slot gen call none = (fail err_noent, k)
take_slot k p slot gen call (some caller) =
    if call.gen == gen then take_caller k p slot call caller else (fail err_noent, k)

unfoldable pub take_from : Kernel → ℕ → ℕ → ℕ → Option (ℕ → HeldCall) → Result ℕ × Kernel
unfolding take_slot
take_from k p slot gen none = (fail err_noent, k)
take_from k p slot gen (some h) = take_slot k p slot gen (h slot) (h slot).caller

-- The entry that the ticket names, and the port behind it.
unfoldable pub take_by : Kernel → ℕ → Option Entry → Result ℕ × Kernel
unfolding take_from ticket_slot ticket_gen
take_by k ticket none = (fail err_badhandle, k)
take_by k ticket (some e) =
    if not (is_port e.type) || e.object == 0
    then (fail err_badhandle, k)
    else if not (may_wait e)
    then (fail err_noperm, k)
    else take_from k e.object (ticket_slot ticket) (ticket_gen ticket) (k.ports e.object).held

-- `PortTakeHeld`: the caller or the error, and the state after it.
unfoldable pub port_take_held : Kernel → ℕ → ℕ → Result ℕ × Kernel
unfolding take_by ticket_index
port_take_held k server ticket =
    take_by k ticket (table_get (k.tables (k.tasks server).owner) (ticket_index ticket))
