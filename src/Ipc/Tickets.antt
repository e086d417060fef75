-- ===== src/Ipc/Tickets.antt =====
-- The ticket of a call on hold finds the call again, once.
mod Held
use zuzu.Base.{
  ℕ, zero, suc, ◌+◌, ◌%◌, ◌<◌, ◌≡◌, refl, sym, ap, ◌∙◌, Bool, true, false, ◌&&◌, Option, none, some,
  arith, ◌==◌, if◌then◌else◌, inl, inr, Bool-cases, ==_refl, is_some,
}
use mathlib.Core.Path.{subst}
use zuzu.Handle.Defs.{Entry, HandleTable, table_get, handle_index}
use zuzu.Sched.Defs.{update}
use zuzu.Ipc.Calls.Defs.{
  HeldCall, Task, Kernel, Result, ok, fail, on_task, on_port, held_slots, not_held, without_caller,
  err_noent,
}
use zuzu.Ipc.Calls.Waits.{drop_held}
use zuzu.Ipc.Calls.Grant.{may_wait, is_port}
use zuzu.Ipc.Calls.Held.{
  ticket_pack, ticket_index, ticket_slot, ticket_gen, held_table, free_slot, next_gen, with_held,
  on_hold_at, hold_in, hold_found, hold_with, hold_caller, hold_by, port_hold_current, take_caller,
  take_slot, take_from, take_by, port_take_held,
}
use zuzu.Ipc.Links.Place.{with_server, IsAt, IsLinked}
use zuzu.Ipc.Links.Parts.{clear_reply_cap-Quiet}
use zuzu.Ipc.Links.HoldIn.{served_by, still_calls-served, clear_reply_cap_port}
use zuzu.Ipc.Tickets.Held.{ticket_fields, OnHold, hold_with-OnHold, hold_lem}

take_caller-ok :
    (k : Kernel) (p slot : ℕ) (call : HeldCall) (c : ℕ)
    → call.caller_tid ≡ (k.tasks c).tid
    → (k.tasks c).waiting ≡ true
    → (take_caller k p slot call c).0 ≡ ok c
unfolding take_caller
take_caller-ok k p slot call c t w =
    let test : ((k.tasks c).tid == call.caller_tid && (k.tasks c).waiting) ≡ true =
      rw (t, w) (rw (==_refl (k.tasks c).tid)) in
    rw test

take_held :
    (k k' : Kernel) (server p c ticket : ℕ) (o : OnHold k k' server p c ticket)
    → (take_from k' p o.slot o.gen (k'.ports p).held).0 ≡ ok c
unfolding take_from take_slot
take_held k k' server p c ticket o =
    subst (λ t. (take_from k' p o.slot o.gen t).0 ≡ ok c) (sym o.held)
      (subst (λ n. (take_slot k' p o.slot o.gen (o.table o.slot) n).0 ≡ ok c) (sym o.caller)
        (rw (o.generation)
          (rw (==_refl o.gen) (take_caller-ok k' p o.slot (o.table o.slot) c o.tid o.waits))))

-- The handle in slot `index` of the space of the task `t` is a port `p` that it may wait on.
pub record WaitsThrough (k : Kernel) (t index p : ℕ) : Type 0 where
  pub entry : Entry
  pub at : table_get (k.tables (k.tasks t).owner) index ≡ some entry
  pub port : is_port entry.type ≡ true
  pub object : entry.object ≡ p
  pub waits : may_wait entry ≡ true

-- A ticket whose index is that of such a handle leads to the table of the port.
take_lem :
    (k : Kernel) (t ticket p : ℕ)
    → (p == 0) ≡ false
    → WaitsThrough k t (ticket_index ticket) p
    → port_take_held k t ticket
      ≡ take_from k p (ticket_slot ticket) (ticket_gen ticket) (k.ports p).held
unfolding port_take_held take_by
take_lem k t ticket p valid w =
    let e = w.entry in
    let from = λ (q : ℕ). take_from k q (ticket_slot ticket) (ticket_gen ticket) (k.ports q).held in
    let present : (e.object == 0) ≡ false = ap (λ n. n == 0) w.object ∙ valid in
    subst (λ o. take_by k ticket o ≡ from p) (sym w.at)
      (rw (w.port) (rw present (rw (w.waits) (ap from w.object))))

index_mod : (h : ℕ) → handle_index h % 1024 ≡ handle_index h
unfolding handle_index
index_mod h = omega arith

pub port_take_held-port_hold_current :
    (memory : Bool) (k : Kernel) (server p c ticket t : ℕ)
    → IsLinked k
    → (k.tasks server).reply_cap ≡ some c
    → (k.tasks server).serving_port ≡ some p
    → (p == 0) ≡ false
    → (port_hold_current memory k server).0 ≡ ok ticket
    → WaitsThrough
        (port_hold_current memory k server).1
        t
        (handle_index (k.tasks server).serving_handle)
        p
    → (port_take_held (port_hold_current memory k server).1 t ticket).0 ≡ ok c
port_take_held-port_hold_current memory k server p c ticket t l cap serves valid held w =
    let a = served_by server c l cap in
    let reached = hold_lem memory k server p c a cap serves in
    let k' = (port_hold_current memory k server).1 in
    let o : OnHold k k' server p c ticket =
      subst (λ (r : Result ℕ × Kernel). OnHold k r.1 server p c ticket) (sym reached)
        (hold_with-OnHold k server p c (held_table memory (k.ports p).held) ticket a.waits
          (ap (λ (r : Result ℕ × Kernel). r.0) (sym reached) ∙ held)) in
    let f =
      ticket_fields (handle_index (k.tasks server).serving_handle) o.slot o.gen o.slot_small
        o.gen_small in
    let index = ap ticket_index o.packed ∙ f.0 ∙ index_mod (k.tasks server).serving_handle in
    let w' = subst (λ i. WaitsThrough k' t i p) (sym index) w in
    let slot = ap ticket_slot o.packed ∙ f.1 in
    let gen = ap ticket_gen o.packed ∙ f.2 in
    ap (λ (r : Result ℕ × Kernel). r.0) (take_lem k' t ticket p valid w')
    ∙ subst (λ s. (take_from k' p s (ticket_gen ticket) (k'.ports p).held).0 ≡ ok c) (sym slot)
        (subst (λ g. (take_from k' p o.slot g (k'.ports p).held).0 ≡ ok c) (sym gen)
          (take_held k k' server p c ticket o))

-- After a take the slot is empty, and owners and handles are as before.
record Emptied (k k' : Kernel) (p slot : ℕ) (h : ℕ → HeldCall) : Type 0 where
  tables : k'.tables ≡ k.tables
  owner : (t : ℕ) → (k'.tasks t).owner ≡ (k.tasks t).owner
  held : (k'.ports p).held ≡ some (update h slot (record (h slot) { caller = none }))

dropped-Emptied :
    (k : Kernel) (p slot c : ℕ) (h : ℕ → HeldCall)
    → (k.ports p).held ≡ some h
    → Emptied k (on_task (drop_held k p slot) c not_held) p slot h
unfolding drop_held
dropped-Emptied k p slot c h e = record {
  tables = refl;
  owner = λ t. elim (Bool-cases (c == t)) [
    | inl same ↦ let z : c ≡ t = ground arith in rw same (ap (λ u. (k.tasks u).owner) z)
    | inr other ↦ rw other
  ];
  held = rw (==_refl p) (ap (λ o. without_caller o slot) e);
}

take_slot-Emptied :
    (k : Kernel) (p slot gen c : ℕ) (h : ℕ → HeldCall) (o : Option ℕ)
    → (k.ports p).held ≡ some h
    → (take_slot k p slot gen (h slot) o).0 ≡ ok c
    → Emptied k (take_slot k p slot gen (h slot) o).1 p slot h
unfolding take_slot take_caller
take_slot-Emptied k p slot gen c h none e r = absurd (cc)
take_slot-Emptied k p slot gen c h (some d) e r = elim (Bool-cases ((h slot).gen == gen)) [
  | inr other ↦ absurd (cc (rw other at r))
  | inl same ↦
      let good = (k.tasks d).tid == (h slot).caller_tid && (k.tasks d).waiting in
      elim (Bool-cases good) [
        | inl ok_caller ↦ rw (same, ok_caller) (dropped-Emptied k p slot d h e)
        | inr bad ↦ absurd (cc (rw (same, bad) at r))
      ]
]

take_from-again :
    (k : Kernel) (p slot gen c : ℕ) (o : Option (ℕ → HeldCall))
    → (k.ports p).held ≡ o
    → (take_from k p slot gen o).0 ≡ ok c
    → (h : ℕ → HeldCall) × Emptied k (take_from k p slot gen o).1 p slot h
unfolding take_from
take_from-again k p slot gen c none e r = absurd (cc)
take_from-again k p slot gen c (some h) e r =
    (h, take_slot-Emptied k p slot gen c h (h slot).caller e r)

take_emptied :
    (k : Kernel) (p slot gen : ℕ) (h : ℕ → HeldCall)
    → (take_from k p slot gen (some (update h slot (record (h slot) { caller = none })))).0
      ≡ fail err_noent
unfolding take_from take_slot
take_emptied k p slot gen h = rw (==_refl slot)

-- A ticket by which a task took a call, through a handle to a port that it may wait on and that is not
-- null, is used up: the task that tries it again gets ERR_NOENT.
pub port_take_held-again :
    (k : Kernel) (t ticket p c : ℕ)
    → (p == 0) ≡ false
    → WaitsThrough k t (ticket_index ticket) p
    → (port_take_held k t ticket).0 ≡ ok c
    → (port_take_held (port_take_held k t ticket).1 t ticket).0 ≡ fail err_noent
port_take_held-again k t ticket p c valid w taken =
    let slot = ticket_slot ticket in
    let gen = ticket_gen ticket in
    let from = take_from k p slot gen (k.ports p).held in
    let first : port_take_held k t ticket ≡ from = take_lem k t ticket p valid w in
    let (h, e) =
      take_from-again k p slot gen c (k.ports p).held refl
        (ap (λ (r : Result ℕ × Kernel). r.0) (sym first) ∙ taken) in
    let k' = from.1 in
    let same_table : k'.tables (k'.tasks t).owner ≡ k.tables (k.tasks t).owner =
      ap (λ (f : ℕ → HandleTable). f (k'.tasks t).owner) e.tables
      ∙ ap (λ o. k.tables o) (e.owner t) in
    let w' : WaitsThrough k' t (ticket_index ticket) p = record {
      entry = w.entry;
      at = ap (λ (f : HandleTable). table_get f (ticket_index ticket)) same_table ∙ w.at;
      port = w.port;
      object = w.object;
      waits = w.waits;
    } in
    subst (λ (r : Result ℕ × Kernel). (port_take_held r.1 t ticket).0 ≡ fail err_noent) (sym first)
      (ap (λ (r : Result ℕ × Kernel). r.0) (take_lem k' t ticket p valid w')
        ∙ ap (λ o. (take_from k' p slot gen o).0) e.held
        ∙ take_emptied k' p slot gen h)
