-- ===== src/Ipc/Links/Replying.antt =====
-- PortTakeHeld takes the caller that a ticket names off hold, and SvcReply keeps each task at one place.
use zuzu.Base.{
  ℕ, ◌≡◌, refl, sym, ap, ◌∙◌, Bool, true, not, ◌&&◌, ◌||◌, Option, none, some, arith, ltb, ◌==◌,
  inl, inr, Bool-cases, ==_refl, is_some,
}
use mathlib.Core.Path.{subst}
use zuzu.Handle.Defs.{Entry, table_get, lookup}
use zuzu.Ipc.Calls.Defs.{
  HeldCall, Kernel, Result, ok, fail, names, on_task, msg_buf_size, err_overflow,
}
use zuzu.Ipc.Calls.Grant.{may_wait, is_port, Granted, refused, granted, grant_handle_across}
use zuzu.Ipc.Calls.Held.{
  take_caller, take_slot, take_from, take_by, port_take_held, ticket_slot, ticket_gen, ticket_index,
}
use zuzu.Ipc.Calls.Reply.{
  reply_deliver, reply_fail, reply_granted, reply_taken, answer_by, with_serving, reply_end,
  reply_on, reply_through, receive_entry, svc_reply,
}
use zuzu.Ipc.Links.Place.{
  Where, nowhere, in_queue, with_server, on_hold, call_in, held_call, IsAt, IsLinked,
}
use zuzu.Ipc.Links.Frames.{plain, Same-quiet}
use zuzu.Ipc.Links.Cancel.{same-IsLinked, Freed, freed_hold}
use zuzu.Ipc.Links.Queue.{set_r0-Same}
use zuzu.Ipc.Links.Receive.{port_receive-IsLinked}
use zuzu.Ipc.Links.Answer.{
  Loose, Loose-Freed, Loose-Same, Answered, Answered-Same, Answered-IsLinked,
  reply_deliver-Answered, reply_fail-Answered, answer_by-IsLinked,
}
use zuzu.Ipc.Links.Grants.{state_of, grant_handle_across-Same}

-- The caller in a slot of a table of held calls is on hold there.
held_place :
    {k : Kernel} {c : ℕ} (w : Where) (p i : ℕ)
    → IsAt k c w
    → names (held_call k p i).caller c ≡ true
    → IsAt k c (on_hold p i)
held_place nowhere p i a h = absurd (cc (a.calls_held p i))
held_place (in_queue q) p i a h = absurd (cc (a.calls_held p i))
held_place (with_server s) p i a h = absurd (cc (a.calls_held p i))
held_place {k} {c} (on_hold q j) p i a h =
    let both : (q == p && j == i) ≡ true = sym (a.calls_held p i) ∙ h in
    let x : q ≡ p = ground (arith, both) in
    let y : j ≡ i = ground (arith, both) in
    subst (λ r. IsAt k c (on_hold r i)) x (subst (λ r. IsAt k c (on_hold q r)) y a)

pub held_by :
    {k : Kernel} (p i c : ℕ)
    → IsLinked k
    → (held_call k p i).caller ≡ some c
    → IsAt k c (on_hold p i)
held_by p i c l e = held_place (l c).place p i (l c).at (ap (λ o. names o c) e ∙ ==_refl c)

-- What `PortTakeHeld` gives: an error and nothing changed, or a caller that is off hold.
pub data Taken (k : Kernel) : Result ℕ × Kernel → Type 0 where
  refused_ticket : (c : ℕ) → Taken k (fail c, k)
  taken_off : {k' : Kernel} (t : ℕ) → Freed k k' t → Taken k (ok t, k')

take_caller-Taken :
    (k : Kernel) (p slot : ℕ) (call : HeldCall) (c : ℕ)
    → IsAt k c (on_hold p slot)
    → Taken k (take_caller k p slot call c)
unfolding take_caller
take_caller-Taken k p slot call c a =
    elim (Bool-cases ((k.tasks c).tid == call.caller_tid && (k.tasks c).waiting)) [
      | inl good ↦ rw good (taken_off c (freed_hold k c p slot a))
      | inr bad ↦ rw bad (refused_ticket _)
    ]

take_slot-Taken :
    (k : Kernel) (p slot gen : ℕ) (call : HeldCall) (o : Option ℕ)
    → IsLinked k
    → (held_call k p slot).caller ≡ o
    → Taken k (take_slot k p slot gen call o)
unfolding take_slot
take_slot-Taken k p slot gen call none l e = refused_ticket _
take_slot-Taken k p slot gen call (some c) l e = elim (Bool-cases (call.gen == gen)) [
  | inl same ↦ rw same (take_caller-Taken k p slot call c (held_by p slot c l e))
  | inr other ↦ rw other (refused_ticket _)
]

take_from-Taken :
    (k : Kernel) (p slot gen : ℕ) (o : Option (ℕ → HeldCall))
    → IsLinked k
    → (k.ports p).held ≡ o
    → Taken k (take_from k p slot gen o)
unfolding take_from
take_from-Taken k p slot gen none l e = refused_ticket _
take_from-Taken k p slot gen (some h) l e =
    take_slot-Taken k p slot gen (h slot) (h slot).caller l (ap (λ o. (call_in o slot).caller) e)

take_by-Taken :
    (k : Kernel) (ticket : ℕ) (o : Option Entry) → IsLinked k → Taken k (take_by k ticket o)
unfolding take_by
take_by-Taken k ticket none l = refused_ticket _
take_by-Taken k ticket (some e) l = elim (Bool-cases (not (is_port e.type) || e.object == 0)) [
  | inl bad ↦ rw bad (refused_ticket _)
  | inr good ↦ rw good (elim (Bool-cases (not (may_wait e))) [
    | inl denied ↦ rw denied (refused_ticket _)
    | inr allowed ↦ rw allowed (
        take_from-Taken k e.object (ticket_slot ticket) (ticket_gen ticket) (k.ports e.object).held
          l refl)
  ])
]

pub port_take_held-Taken :
    (k : Kernel) (server ticket : ℕ) → IsLinked k → Taken k (port_take_held k server ticket)
unfolding port_take_held
port_take_held-Taken k server ticket l =
    take_by-Taken k ticket (table_get (k.tables (k.tasks server).owner) (ticket_index ticket)) l

reply_granted-Answered :
    (k : Kernel) (server xlen t : ℕ) (g : Granted)
    → Loose k (state_of g) t
    → Answered k (reply_granted server xlen t g) t
unfolding reply_granted
reply_granted-Answered k server xlen t (refused c k') l =
    Answered-Same (reply_fail-Answered k k' t c l) (λ d. set_r0-Same (reply_fail k' t c) server c d)
reply_granted-Answered k server xlen t (granted w k') l =
    Answered-Same (reply_deliver-Answered k k' server t xlen w l)
      (λ d. set_r0-Same (reply_deliver k' server t xlen w) server 0 d)

reply_taken-IsLinked :
    (memory : Bool) (server xlen : ℕ) (grant : Option ℕ) (k : Kernel) (r : Result ℕ × Kernel)
    → IsLinked k
    → Taken k r
    → IsLinked (reply_taken memory server xlen grant r)
unfolding reply_taken
reply_taken-IsLinked memory server xlen grant k r l (refused_ticket c) =
    same-IsLinked (λ d. set_r0-Same k server c d) l
reply_taken-IsLinked memory server xlen grant k r l (taken_off {k'} t f) =
    let from = (k'.tasks server).owner in
    let to = (k'.tasks t).owner in
    let s = λ (d : ℕ). grant_handle_across-Same memory k' from to grant d in
    Answered-IsLinked l (
      reply_granted-Answered k server xlen t (grant_handle_across memory k' from to grant)
        (Loose-Same (Loose-Freed f) s))

reply_end-IsLinked :
    (memory : ℕ → Bool) (server : ℕ) (receive : Option (ℕ × Entry)) (timeout : ℕ)
    (r : Option ℕ × Kernel)
    → IsLinked r.1
    → IsLinked (reply_end memory server receive timeout r)
unfolding reply_end
reply_end-IsLinked memory server receive timeout (some c, k) l =
    same-IsLinked (λ d. set_r0-Same k server c d) l
reply_end-IsLinked memory server none timeout (none, k) l =
    same-IsLinked (λ d. set_r0-Same k server 0 d) l
reply_end-IsLinked memory server (some (h, e)) timeout (none, k) l =
    port_receive-IsLinked memory (on_task k server (with_serving h)) server e.object timeout
      (same-IsLinked (λ d. Same-quiet k server (with_serving h) plain d refl) l)

reply_on-IsLinked :
    (memory : Bool) (growth : ℕ → Bool) (k : Kernel) (server xlen : ℕ) (grant : Option ℕ)
    (receive : Option (ℕ × Entry)) (timeout : ℕ)
    → IsLinked k
    → IsLinked (reply_on memory growth k server xlen grant receive timeout)
unfolding reply_on
reply_on-IsLinked memory growth k server xlen grant receive timeout l =
    elim (Bool-cases (ltb msg_buf_size xlen)) [
      | inl long ↦ rw long (same-IsLinked (λ d. set_r0-Same k server err_overflow d) l)
      | inr fits ↦
          let cap = (k.tasks server).reply_cap in
          rw fits (
            reply_end-IsLinked growth server receive timeout
              (answer_by memory k server xlen grant (is_some receive) cap)
              (answer_by-IsLinked memory k server xlen grant (is_some receive) cap l refl))
    ]

reply_through-IsLinked :
    (memory : Bool) (growth : ℕ → Bool) (k : Kernel) (server xlen : ℕ) (grant : Option ℕ)
    (h timeout : ℕ) (r : Result Entry)
    → IsLinked k
    → IsLinked (reply_through memory growth k server xlen grant h timeout r)
unfolding reply_through
reply_through-IsLinked memory growth k server xlen grant h timeout (fail c) l =
    same-IsLinked (λ d. set_r0-Same k server c d) l
reply_through-IsLinked memory growth k server xlen grant h timeout (ok e) l =
    reply_on-IsLinked memory growth k server xlen grant (some (h, e)) timeout l

-- A reply, and the receive that may follow it, keep each task at one place.
pub svc_reply-IsLinked :
    (memory : Bool) (growth : ℕ → Bool) (k : Kernel) (server xlen : ℕ) (grant receive : Option ℕ)
    (r3 : ℕ)
    → IsLinked k
    → IsLinked (svc_reply memory growth k server xlen grant receive r3)
unfolding svc_reply
svc_reply-IsLinked memory growth k server xlen grant none r3 l = elim (Bool-cases (r3 == 0)) [
  | inl current ↦ rw current (reply_on-IsLinked memory growth k server xlen grant none r3 l)
  | inr ticket ↦ rw ticket (elim (Bool-cases (ltb msg_buf_size xlen)) [
    | inl long ↦ rw long (same-IsLinked (λ d. set_r0-Same k server err_overflow d) l)
    | inr fits ↦ rw fits (
        reply_taken-IsLinked memory server xlen grant k (port_take_held k server r3) l
          (port_take_held-Taken k server r3 l))
  ])
]
svc_reply-IsLinked memory growth k server xlen grant (some h) r3 l =
    reply_through-IsLinked memory growth k server xlen grant h r3
      (receive_entry (lookup (k.tables (k.tasks server).owner) h)) l
