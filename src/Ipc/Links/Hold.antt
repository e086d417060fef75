-- ===== src/Ipc/Links/Hold.antt =====
-- PortHoldCurrent moves the call that a server answers into the table of its port.
use zuzu.Base.{ℕ, ◌≡◌, refl, sym, ap, Bool, Option, none, some}
use mathlib.Core.Path.{subst}
use zuzu.Ipc.Calls.Defs.{HeldCall, Kernel, Result, ok, fail, names, held_slots}
use zuzu.Ipc.Calls.Held.{
  held_table, free_slot, with_held, hold_found, hold_with, hold_caller, hold_by, port_hold_current,
  held_result, svc_hold, has_ticket,
}
use zuzu.Ipc.Links.Place.{with_server, on_hold, call_in, IsAt, IsLinked}
use zuzu.Ipc.Links.Frames.{plain, Same-quiet, Same-port}
use zuzu.Ipc.Links.Cancel.{moved-IsLinked, same-IsLinked}
use zuzu.Ipc.Links.Queue.{set_r0-Same}
use zuzu.Ipc.Links.HoldIn.{
  served_by, still_calls-served, free_slot-free, held_table-calls, hold_in-others, hold_in-IsAt,
}

hold_found-IsLinked :
    (k : Kernel) (server p c : ℕ) (h : ℕ → HeldCall) (o : Option ℕ)
    → IsLinked k
    → IsAt k c (with_server server)
    → ((i : ℕ) → call_in (k.ports p).held i ≡ h i)
    → free_slot h held_slots 0 ≡ o
    → IsLinked (hold_found k server p c h o).1
unfolding hold_found
hold_found-IsLinked k server p c h none l a table e =
    same-IsLinked
      (λ d.
        Same-port k p (with_held h) d refl
          (λ i. ap (λ (g : HeldCall). names g.caller d) (sym (table i)))
          (λ i n. ap (λ (g : HeldCall). g.caller_tid) (sym (table i))))
      l
hold_found-IsLinked k server p c h (some slot) l a table e =
    let free = free_slot-free h held_slots 0 slot e in
    moved-IsLinked c l
      (record { place = on_hold p slot; at = hold_in-IsAt k server p c slot h table free a })
      (hold_in-others k server p c slot h table free a)

-- The search for a slot: the call goes on hold, or nothing moves.
hold_with-IsLinked :
    (k : Kernel) (server p c : ℕ) (o : Option (ℕ → HeldCall))
    → IsLinked k
    → IsAt k c (with_server server)
    → ((h : ℕ → HeldCall) (i : ℕ) → o ≡ some h → call_in (k.ports p).held i ≡ h i)
    → IsLinked (hold_with k server p c o).1
unfolding hold_with
hold_with-IsLinked k server p c none l a table = l
hold_with-IsLinked k server p c (some h) l a table =
    hold_found-IsLinked k server p c h (free_slot h held_slots 0) l a (λ i. table h i refl) refl

-- A task that `rc` names is the caller of its own reply object, so the check of it never fails.
hold_caller-IsLinked :
    (memory : Bool) (k : Kernel) (server p rc : ℕ) (o : Option ℕ)
    → IsLinked k
    → IsAt k rc (with_server server)
    → o ≡ some rc
    → IsLinked (hold_caller memory k server p rc o).1
unfolding hold_caller
hold_caller-IsLinked memory k server p rc none l a e = absurd (cc)
hold_caller-IsLinked memory k server p rc (some c) l a e =
    let z : rc ≡ c = cc in
    subst (λ u. IsLinked (hold_caller memory k server p rc (some u)).1) z
      (rw (still_calls-served k server rc a) (
        hold_with-IsLinked k server p rc (held_table memory (k.ports p).held) l a
          (λ h i q. held_table-calls memory (k.ports p).held h i q)))

hold_by-IsLinked :
    (memory : Bool) (k : Kernel) (server : ℕ) (o port : Option ℕ)
    → IsLinked k
    → (k.tasks server).reply_cap ≡ o
    → IsLinked (hold_by memory k server o port).1
unfolding hold_by
hold_by-IsLinked memory k server none port l e = l
hold_by-IsLinked memory k server (some rc) none l e = l
hold_by-IsLinked memory k server (some rc) (some p) l e =
    let a = served_by server rc l e in
    hold_caller-IsLinked memory k server p rc (k.tasks rc).reply_cap_storage.caller_task l a
      (a.object refl).task

-- PortHoldCurrent keeps each task at one place.
pub port_hold_current-IsLinked :
    (memory : Bool) (k : Kernel) (server : ℕ)
    → IsLinked k
    → IsLinked (port_hold_current memory k server).1
unfolding port_hold_current
port_hold_current-IsLinked memory k server l =
    hold_by-IsLinked memory k server (k.tasks server).reply_cap (k.tasks server).serving_port l refl

held_result-IsLinked :
    (server : ℕ) (r : Result ℕ × Kernel) → IsLinked r.1 → IsLinked (held_result server r)
unfolding held_result
held_result-IsLinked server (ok ticket, k) l =
    same-IsLinked (λ d. Same-quiet k server (has_ticket ticket) plain d refl) l
held_result-IsLinked server (fail c, k) l = same-IsLinked (λ d. set_r0-Same k server c d) l

pub svc_hold-IsLinked :
    (memory : Bool) (k : Kernel) (server : ℕ) → IsLinked k → IsLinked (svc_hold memory k server)
unfolding svc_hold
svc_hold-IsLinked memory k server l =
    held_result-IsLinked server (port_hold_current memory k server)
      (port_hold_current-IsLinked memory k server l)
