-- ===== src/Ipc/Receivers/Holding.antt =====
-- The system call Hold keeps the invariant of the receiver queues.
use zuzu.Base.{ℕ, refl, Bool, not, Option, none, some, inl, inr, Bool-cases}
use zuzu.Sched.Defs.{update}
use zuzu.Ipc.Calls.Defs.{HeldCall, Kernel, on_task, on_port}
use zuzu.Ipc.Calls.Defs.{Result, ok, fail}
use zuzu.Ipc.Receivers.Ends.{plain-Kept, set_r0-Kept}
use zuzu.Ipc.Calls.Held.{
  held_table, free_slot, with_held, on_hold_at, hold_in, hold_found, hold_with, still_calls,
  hold_caller, hold_by, port_hold_current, has_ticket, held_result, svc_hold, next_gen,
}
use zuzu.Ipc.Calls.Defs.{held_slots}
use zuzu.Ipc.Receivers.Ends.{clear_reply_cap-Kept}
use zuzu.Ipc.Receivers.Kept.{Kept, Kept-self, Kept-trans, Kept-port}

hold_in-Kept :
    (k : Kernel) (server p c : ℕ) (h : ℕ → HeldCall) (slot : ℕ)
    → Kept k (hold_in k server p c h slot).1
unfolding hold_in
hold_in-Kept k server p c h slot =
    let call : HeldCall = record {
      caller = some c;
      caller_tid = (k.tasks c).tid;
      gen = next_gen (h slot).gen;
    } in
    let k1 = on_port k p (with_held (update h slot call)) in
    let k2 = on_task k1 c (on_hold_at p slot) in
    Kept-trans (Kept-port k p (with_held (update h slot call)) refl) (
      Kept-trans (plain-Kept k1 c (on_hold_at p slot) refl refl refl)
        (clear_reply_cap-Kept k2 server))

hold_found-Kept :
    (k : Kernel) (server p c : ℕ) (h : ℕ → HeldCall) (o : Option ℕ)
    → Kept k (hold_found k server p c h o).1
unfolding hold_found
hold_found-Kept k server p c h none = Kept-port k p (with_held h) refl
hold_found-Kept k server p c h (some slot) = hold_in-Kept k server p c h slot

hold_with-Kept :
    (k : Kernel) (server p c : ℕ) (o : Option (ℕ → HeldCall)) → Kept k (hold_with k server p c o).1
unfolding hold_with
hold_with-Kept k server p c none = Kept-self k
hold_with-Kept k server p c (some h) = hold_found-Kept k server p c h (free_slot h held_slots 0)

hold_caller-Kept :
    (memory : Bool) (k : Kernel) (server p rc : ℕ) (o : Option ℕ)
    → Kept k (hold_caller memory k server p rc o).1
unfolding hold_caller
hold_caller-Kept memory k server p rc none = clear_reply_cap-Kept k server
hold_caller-Kept memory k server p rc (some c) = elim (Bool-cases (not (still_calls k rc c))) [
  | inl stale ↦ rw stale (clear_reply_cap-Kept k server)
  | inr good ↦ rw good (hold_with-Kept k server p c (held_table memory (k.ports p).held))
]

hold_by-Kept :
    (memory : Bool) (k : Kernel) (server : ℕ) (o port : Option ℕ)
    → Kept k (hold_by memory k server o port).1
unfolding hold_by
hold_by-Kept memory k server none port = Kept-self k
hold_by-Kept memory k server (some rc) none = Kept-self k
hold_by-Kept memory k server (some rc) (some p) =
    hold_caller-Kept memory k server p rc (k.tasks rc).reply_cap_storage.caller_task

held_result-Kept : (server : ℕ) (r : Result ℕ × Kernel) → Kept r.1 (held_result server r)
unfolding held_result
held_result-Kept server (ok ticket, k) = plain-Kept k server (has_ticket ticket) refl refl refl
held_result-Kept server (fail c, k) = set_r0-Kept k server c

pub svc_hold-Kept : (memory : Bool) (k : Kernel) (server : ℕ) → Kept k (svc_hold memory k server)
unfolding svc_hold port_hold_current
svc_hold-Kept memory k server =
    let cap = (k.tasks server).reply_cap in
    let port = (k.tasks server).serving_port in
    Kept-trans (hold_by-Kept memory k server cap port)
      (held_result-Kept server (hold_by memory k server cap port))
