-- ===== src/Ipc/Tickets/Held.antt =====
-- The slot that PortHoldCurrent fills, and the ticket that names it.
use zuzu.Base.{
  ℕ, zero, suc, ◌+◌, ◌%◌, ◌<◌, ◌≡◌, refl, sym, ap, ◌∙◌, Bool, true, Option, none, some, arith,
  if◌then◌else◌, inl, inr, Bool-cases, ==_refl, is_some,
}
use mathlib.Core.Path.{subst}
use zuzu.Handle.Defs.{handle_index}
use zuzu.Sched.Defs.{update}
use zuzu.Ipc.Calls.Defs.{HeldCall, Task, Kernel, ok, on_task, on_port, held_slots}
use zuzu.Ipc.Calls.Held.{
  ticket_pack, ticket_index, ticket_slot, ticket_gen, held_table, free_slot, next_gen, with_held,
  on_hold_at, hold_in, hold_found, hold_with, hold_caller, hold_by, port_hold_current,
}
use zuzu.Ipc.Links.Place.{with_server, IsAt}
use zuzu.Ipc.Links.Parts.{clear_reply_cap-Quiet}
use zuzu.Ipc.Links.HoldIn.{still_calls-served, clear_reply_cap_port}

pub ticket_fields :
    (index slot gen : ℕ)
    → slot < 64
    → gen < 32768
    → (ticket_index (ticket_pack index slot gen) ≡ index % 1024)
      × (ticket_slot (ticket_pack index slot gen) ≡ slot)
      × (ticket_gen (ticket_pack index slot gen) ≡ gen)
unfolding ticket_pack ticket_index ticket_slot ticket_gen
ticket_fields index slot gen a b = omega arith

next_gen-lt : (gen : ℕ) → next_gen gen < 32768
unfolding next_gen
next_gen-lt gen = ground arith

free_slot-lt : (h : ℕ → HeldCall) (n i slot : ℕ) → free_slot h n i ≡ some slot → slot < i + n
unfolding free_slot
free_slot-lt h zero i slot e = absurd (cc)
free_slot-lt h (suc n) i slot e = elim (Bool-cases (is_some (h i).caller)) [
  | inl taken ↦ omega (arith, free_slot-lt h n (i + 1) slot (rw taken at e))
  | inr free ↦ let z : i ≡ slot = cc (rw free at e) in omega (arith, z)
]

-- The ticket names the slot of the port `p` that holds the call of `c`.
pub record OnHold (k k' : Kernel) (server p c ticket : ℕ) : Type 0 where
  pub slot : ℕ
  pub gen : ℕ
  pub slot_small : slot < 64
  pub gen_small : gen < 32768
  pub packed : ticket ≡ ticket_pack (handle_index (k.tasks server).serving_handle) slot gen
  pub table : ℕ → HeldCall
  pub held : (k'.ports p).held ≡ some table
  pub caller : (table slot).caller ≡ some c
  pub tid : (table slot).caller_tid ≡ (k'.tasks c).tid
  pub generation : (table slot).gen ≡ gen
  pub waits : (k'.tasks c).waiting ≡ true

hold_in-OnHold :
    (k : Kernel) (server p c : ℕ) (h : ℕ → HeldCall) (slot ticket : ℕ)
    → slot < 64
    → (k.tasks c).waiting ≡ true
    → (hold_in k server p c h slot).0 ≡ ok ticket
    → OnHold k (hold_in k server p c h slot).1 server p c ticket
unfolding hold_in
hold_in-OnHold k server p c h slot ticket small waits e =
    let gen = next_gen (h slot).gen in
    let call : HeldCall = record { caller = some c; caller_tid = (k.tasks c).tid; gen = gen } in
    let k1 = on_port k p (with_held (update h slot call)) in
    let k2 = on_task k1 c (on_hold_at p slot) in
    let q = clear_reply_cap-Quiet k2 server c in
    let task : k2.tasks c ≡ on_hold_at p slot (k.tasks c) = rw (==_refl c) in
    record {
      slot = slot;
      gen = gen;
      slot_small = small;
      gen_small = next_gen-lt (h slot).gen;
      packed = cc (e);
      table = update h slot call;
      held = (clear_reply_cap_port k2 server p).1 ∙ rw (==_refl p);
      caller = rw (==_refl slot);
      tid =
          ap (λ (b : Bool). (if b then call else h slot).caller_tid) (==_refl slot)
          ∙ sym (q.tid ∙ ap (λ (x : Task). x.tid) task);
      generation = rw (==_refl slot);
      waits = q.waits ∙ ap (λ (x : Task). x.waiting) task ∙ waits;
    }

hold_found-OnHold :
    (k : Kernel) (server p c : ℕ) (h : ℕ → HeldCall) (o : Option ℕ) (ticket : ℕ)
    → free_slot h held_slots 0 ≡ o
    → (k.tasks c).waiting ≡ true
    → (hold_found k server p c h o).0 ≡ ok ticket
    → OnHold k (hold_found k server p c h o).1 server p c ticket
unfolding hold_found
hold_found-OnHold k server p c h none ticket f waits e = absurd (cc)
hold_found-OnHold k server p c h (some slot) ticket f waits e =
    hold_in-OnHold k server p c h slot ticket (free_slot-lt h held_slots 0 slot f) waits e

pub hold_with-OnHold :
    (k : Kernel) (server p c : ℕ) (o : Option (ℕ → HeldCall)) (ticket : ℕ)
    → (k.tasks c).waiting ≡ true
    → (hold_with k server p c o).0 ≡ ok ticket
    → OnHold k (hold_with k server p c o).1 server p c ticket
unfolding hold_with
hold_with-OnHold k server p c none ticket waits e = absurd (cc)
hold_with-OnHold k server p c (some h) ticket waits e =
    hold_found-OnHold k server p c h (free_slot h held_slots 0) ticket refl waits e

-- The hold of a task that serves `c` through `p` reaches the table.
pub hold_lem :
    (memory : Bool) (k : Kernel) (server p c : ℕ)
    → IsAt k c (with_server server)
    → (k.tasks server).reply_cap ≡ some c
    → (k.tasks server).serving_port ≡ some p
    → port_hold_current memory k server
      ≡ hold_with k server p c (held_table memory (k.ports p).held)
unfolding port_hold_current hold_by hold_caller
hold_lem memory k server p c a cap serves =
    let reached = hold_with k server p c (held_table memory (k.ports p).held) in
    subst (λ o. hold_by memory k server o (k.tasks server).serving_port ≡ reached) (sym cap)
      (subst (λ o. hold_by memory k server (some c) o ≡ reached) (sym serves)
        (subst (λ o. hold_caller memory k server p c o ≡ reached) (sym (a.object refl).task)
          (rw (still_calls-served k server c a))))
