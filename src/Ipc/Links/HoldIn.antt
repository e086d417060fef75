-- ===== src/Ipc/Links/HoldIn.antt =====
-- The reply capability of a server is never stale; and what it takes to put the call behind it on hold.
use zuzu.Base.{
  ℕ, zero, suc, ◌+◌, ◌≡◌, refl, sym, ap, ◌∙◌, Bool, true, false, ◌&&◌, Option, none, some, arith,
  ◌==◌, inl, inr, Bool-cases, ==_refl, is_some,
}
use mathlib.Core.Path.{subst}
use zuzu.Sched.Defs.{update}
use zuzu.Sched.Tasks.{count}
use zuzu.Ipc.Calls.Defs.{
  HeldCall, Reply, Task, Kernel, is_zombie, names, on_task, on_port, with_reply_cap, drop_server,
  not_serving,
}
use zuzu.Ipc.Calls.Waits.{detach_from, detach_serving, clear_reply_cap}
use zuzu.Ipc.Calls.Held.{
  held_table, free_slot, next_gen, with_held, on_hold_at, hold_in, still_calls,
}
use zuzu.Ipc.Links.Place.{
  Where, nowhere, in_queue, with_server, on_hold, call_in, held_call, IsAt, Same, Same-trans,
  IsLinked,
}
use zuzu.Ipc.Links.Frames.{Same-other, Same-port}
use zuzu.Ipc.Links.Ends.{clear_reply_cap-Same}
use zuzu.Ipc.Links.Parts.{names-other, clear_reply_cap-Quiet}
use zuzu.Ipc.Links.Deliver.{cap_kept}
use zuzu.Ipc.Links.Receive.{none_of_is_some}

-- The task that a reply capability names is with the server that has it.
served_place :
    {k : Kernel} {c : ℕ} (w : Where) (s : ℕ)
    → IsAt k c w
    → names (k.tasks s).reply_cap c ≡ true
    → IsAt k c (with_server s)
served_place nowhere s a h = absurd (cc (a.caps s))
served_place (in_queue q) s a h = absurd (cc (a.caps s))
served_place {k} {c} (with_server t) s a h =
    let z : t ≡ s = ground (arith, a.caps s) in subst (λ r. IsAt k c (with_server r)) z a
served_place (on_hold q i) s a h = absurd (cc (a.caps s))

pub served_by :
    {k : Kernel} (s c : ℕ) → IsLinked k → (k.tasks s).reply_cap ≡ some c → IsAt k c (with_server s)
served_by s c l e = served_place (l c).place s (l c).at (ap (λ o. names o c) e ∙ ==_refl c)

-- The reply object that a server holds stands for a call of the task that it is part of.
pub still_calls-served :
    (k : Kernel) (s c : ℕ) → IsAt k c (with_server s) → still_calls k c c ≡ true
unfolding still_calls
still_calls-served k s c a = rw ((a.object refl).tid, a.waits) (rw (==_refl (k.tasks c).tid))

-- A port after the server that it counted forgets its call.
detach_from_port :
    (k : Kernel) (t : ℕ) (o : Option ℕ) (q : ℕ)
    → (((detach_from k t o).ports q).sender_queue ≡ (k.ports q).sender_queue)
      × (((detach_from k t o).ports q).held ≡ (k.ports q).held)
unfolding detach_from
detach_from_port k t none q = (refl, refl)
detach_from_port k t (some p) q = elim (Bool-cases (p == q)) [
  | inl same ↦ let z : p ≡ q = ground arith in rw (same, z) (refl, refl)
  | inr other ↦ rw other (refl, refl)
]

detach_from_cap :
    (k : Kernel) (t : ℕ) (o : Option ℕ) (u : ℕ)
    → ((detach_from k t o).tasks u).reply_cap ≡ (k.tasks u).reply_cap
unfolding detach_from
detach_from_cap k t none u = refl
detach_from_cap k t (some p) u = cap_kept (on_port k p (drop_server t)) t not_serving u refl

pub clear_reply_cap_port :
    (k : Kernel) (t q : ℕ)
    → (((clear_reply_cap k t).ports q).sender_queue ≡ (k.ports q).sender_queue)
      × (((clear_reply_cap k t).ports q).held ≡ (k.ports q).held)
unfolding clear_reply_cap detach_serving
clear_reply_cap_port k t q =
    let k1 = on_task k t (with_reply_cap none) in detach_from_port k1 t (k1.tasks t).serving_port q

pub clear_reply_cap_caps :
    (k : Kernel) (s c t : ℕ)
    → names (k.tasks t).reply_cap c ≡ (s == t)
    → names ((clear_reply_cap k s).tasks t).reply_cap c ≡ false
unfolding clear_reply_cap detach_serving
clear_reply_cap_caps k s c t h =
    let k1 = on_task k s (with_reply_cap none) in
    ap (λ o. names o c) (detach_from_cap k1 s (k1.tasks s).serving_port t)
    ∙ elim (Bool-cases (s == t)) [ inl same ↦ rw same | inr other ↦ rw other (h ∙ other) ]

pub free_slot-free :
    (h : ℕ → HeldCall) (n i slot : ℕ) → free_slot h n i ≡ some slot → (h slot).caller ≡ none
unfolding free_slot
free_slot-free h zero i slot e = absurd (cc)
free_slot-free h (suc n) i slot e = elim (Bool-cases (is_some (h i).caller)) [
  | inl taken ↦ free_slot-free h n (i + 1) slot (rw taken at e)
  | inr free ↦
      let z : i ≡ slot = cc (rw free at e) in
      subst (λ u. (h u).caller ≡ none) z (none_of_is_some (h i).caller free)
]

-- The table that a hold uses lists the same calls.
pub held_table-calls :
    (memory : Bool) (o : Option (ℕ → HeldCall)) (h : ℕ → HeldCall) (i : ℕ)
    → held_table memory o ≡ some h
    → call_in o i ≡ h i
unfolding held_table
held_table-calls memory (some g) h i e = ap (λ o. call_in o i) e
held_table-calls true none h i e = ap (λ o. call_in o i) e
held_table-calls false none h i e = absurd (cc)

-- A call that is put on hold in a free slot.
module _ (k : Kernel) (server p c slot : ℕ) (h : ℕ → HeldCall)
    (table : (i : ℕ) → call_in (k.ports p).held i ≡ h i) (free : (h slot).caller ≡ none)
    (a : IsAt k c (with_server server)) where
  new_call : HeldCall
  new_call = record { caller = some c; caller_tid = (k.tasks c).tid; gen = next_gen (h slot).gen }

  k1 : Kernel
  k1 = on_port k p (with_held (update h slot new_call))

  k2 : Kernel
  unfolding k1
  k2 = on_task k1 c (on_hold_at p slot)

  slot_other :
      (d i : ℕ)
      → (c == d) ≡ false
      → names (update h slot new_call i).caller d ≡ names (call_in (k.ports p).held i).caller d
  unfolding new_call
  slot_other d i e = rw (table i) (elim (Bool-cases (slot == i)) [
    | inl same ↦
        let z : slot ≡ i = ground arith in
        rw same (e ∙ sym (ap (λ o. names o d) (subst (λ u. (h u).caller ≡ none) z free)))
    | inr other ↦ rw other
  ])

  slot_tid :
      (d i : ℕ)
      → names (call_in (k.ports p).held i).caller d ≡ true
      → (update h slot new_call i).caller_tid ≡ (call_in (k.ports p).held i).caller_tid
  unfolding new_call
  slot_tid d i n = elim (Bool-cases (slot == i)) [
    | inl same ↦
        let z : slot ≡ i = ground arith in
        let empty = ap (λ o. names o d) (subst (λ u. (h u).caller ≡ none) z free) in
        absurd (cc (n, ap (λ (g : HeldCall). names g.caller d) (table i), empty))
    | inr other ↦ rw (other, table i)
  ]

  pub hold_in-others : (d : ℕ) → (c == d) ≡ false → Same k (hold_in k server p c h slot).1 d
  unfolding hold_in k2 k1 new_call
  hold_in-others d e =
      let served = a.caps server ∙ ==_refl server in
      let cap2 = cap_kept k1 c (on_hold_at p slot) server refl in
      let not_d = ap (λ o. names o d) cap2 ∙ names-other (k.tasks server).reply_cap c d served e in
      Same-trans
        (Same-port k p (with_held (update h slot new_call)) d refl (λ i. slot_other d i e)
          (λ i n. slot_tid d i n))
        (Same-trans (Same-other k1 c (on_hold_at p slot) d e refl)
          (clear_reply_cap-Same k2 server d not_d))

  held_names : (q i : ℕ) → names (held_call k2 q i).caller c ≡ (p == q && slot == i)
  unfolding k2 k1 new_call
  held_names q i = elim (Bool-cases (p == q)) [
    | inr other ↦ rw other (a.calls_held q i)
    | inl same ↦ rw same (elim (Bool-cases (slot == i)) [
      | inl here ↦ rw here (==_refl c)
      | inr there ↦
          rw there (ap (λ (g : HeldCall). names g.caller c) (sym (table i)) ∙ a.calls_held p i)
    ])
  ]

  held_tids :
      (q i : ℕ) → (p == q && slot == i) ≡ true → (held_call k2 q i).caller_tid ≡ (k.tasks c).tid
  unfolding k2 k1 new_call
  held_tids q i n = elim (Bool-cases (p == q)) [
    | inr other ↦ absurd (ground (arith, n, other))
    | inl same ↦ elim (Bool-cases (slot == i)) [
      | inl here ↦ rw (same, here)
      | inr there ↦ absurd (ground (arith, n, there))
    ]
  ]

  queue_kept : (q : ℕ) → count c (k2.ports q).sender_queue ≡ 0
  unfolding k2 k1
  queue_kept q = elim (Bool-cases (p == q)) [
    | inl same ↦ rw same (a.queue p)
    | inr other ↦ rw other (a.queue q)
  ]

  caps_kept : (t : ℕ) → names (k2.tasks t).reply_cap c ≡ (server == t)
  unfolding k2 k1
  caps_kept t = ap (λ o. names o c) (cap_kept k1 c (on_hold_at p slot) t refl) ∙ a.caps t

  task_on_hold : k2.tasks c ≡ on_hold_at p slot (k.tasks c)
  unfolding k2 k1
  task_on_hold = rw (==_refl c)

  pub hold_in-IsAt : IsAt (hold_in k server p c h slot).1 c (on_hold p slot)
  unfolding hold_in
  hold_in-IsAt =
      let q = clear_reply_cap-Quiet k2 server c in
      let o = a.object refl in
      let waits2 = ap (λ (x : Task). x.waiting) task_on_hold ∙ a.waits in
      let tid2 = q.tid ∙ ap (λ (x : Task). x.tid) task_on_hold in
      let storage2 = q.storage waits2 ∙ ap (λ (x : Task). x.reply_cap_storage) task_on_hold in
      let at : IsAt (clear_reply_cap k2 server) c (on_hold p slot) = record {
        waits = q.waits ∙ waits2;
        holder = q.holder ∙ ap (λ (x : Task). x.reply_holder) task_on_hold;
        held_at = q.held_at ∙ ap (λ (x : Task). x.held_port) task_on_hold;
        local = q.slot ∙ ap (λ (x : Task). x.held_slot) task_on_hold;
        object = λ n. record {
          pending =
              q.pending waits2 ∙ ap (λ (x : Task). x.pending_reply_cap) task_on_hold ∙ o.pending;
          task = ap (λ (r : Reply). r.caller_task) storage2 ∙ o.task;
          tid = ap (λ (r : Reply). r.caller_tid) storage2 ∙ o.tid ∙ sym tid2;
          alive = q.lives (ap (λ (x : Task). is_zombie x.state) task_on_hold ∙ o.alive);
        };
        queue = λ r. ap (count c) (clear_reply_cap_port k2 server r).0 ∙ queue_kept r;
        caps = λ t. clear_reply_cap_caps k2 server c t (caps_kept t);
        calls_held = λ r i.
            ap (λ t. names (call_in t i).caller c) (clear_reply_cap_port k2 server r).1
            ∙ held_names r i;
        tids = λ r i n.
            ap (λ t. (call_in t i).caller_tid) (clear_reply_cap_port k2 server r).1
            ∙ held_tids r i n
            ∙ sym tid2;
      } in
      unfold k2 in unfold k1 in unfold new_call in at
