-- ===== src/Ipc/Receivers/Answers.antt =====
-- The system call Reply keeps the invariant of the receiver queues.
use zuzu.Base.{
  ℕ, ◌≡◌, refl, Bool, false, not, ◌&&◌, ◌||◌, Option, none, some, ◌==◌, ltb, inl, inr, Bool-cases,
  is_some,
}
use zuzu.Ipc.Calls.Defs.{HeldCall, Kernel, on_task, not_held, msg_buf_size}
use zuzu.Ipc.Calls.Waits.{drop_held}
use zuzu.Handle.Defs.{Entry, lookup}
use zuzu.Ipc.Calls.Defs.{Result, ok, fail, err_overflow}
use zuzu.Ipc.Calls.Grant.{grant_handle_across, Granted, refused, granted}
use zuzu.Ipc.Links.Grants.{state_of}
use zuzu.Ipc.Receivers.Ends.{plain-Kept, set_r0-Kept}
use zuzu.Handle.Defs.{table_get}
use zuzu.Ipc.Calls.Grant.{may_wait, is_port}
use zuzu.Ipc.Calls.Held.{
  take_caller, take_slot, take_from, take_by, port_take_held, ticket_slot, ticket_gen, ticket_index,
}
use zuzu.Ipc.Calls.Reply.{
  reply_deliver, reply_fail, reply_granted, reply_taken, answer_by, with_serving, reply_end,
  reply_on, reply_through, receive_entry, svc_reply,
}
use zuzu.Ipc.Receivers.Ends.{drop_held-Kept}
use zuzu.Ipc.Receivers.Calm.{
  Calm-plain, reply_deliver-Calm, reply_fail-Calm, grant-Calm, answer_by-Calm,
}
use zuzu.Ipc.Receivers.Calling.{port_receive-AreReceivers}
use zuzu.Ipc.Receivers.Kept.{AreReceivers, Kept, Kept-self, Kept-trans}

reply_end-AreReceivers :
    (memory : ℕ → Bool) (server : ℕ) (receive : Option (ℕ × Entry)) (timeout : ℕ)
    (r : Option ℕ × Kernel)
    → AreReceivers r.1
    → (r.1.tasks server).wait_port ≡ none
    → (r.1.tasks server).waiting ≡ false
    → AreReceivers (reply_end memory server receive timeout r)
unfolding reply_end
reply_end-AreReceivers memory server receive timeout (some c, k) a idle rests =
    (set_r0-Kept k server c).inv a
reply_end-AreReceivers memory server none timeout (none, k) a idle rests =
    (set_r0-Kept k server 0).inv a
reply_end-AreReceivers memory server (some (h, e)) timeout (none, k) a idle rests =
    let c = Calm-plain k server (with_serving h) refl refl refl in
    port_receive-AreReceivers memory (on_task k server (with_serving h)) server e.object timeout
      (c.kept.inv a) (c.kept.idle server idle) (c.rests server rests)

reply_on-AreReceivers :
    (memory : Bool) (growth : ℕ → Bool) (k : Kernel) (server xlen : ℕ) (grant : Option ℕ)
    (receive : Option (ℕ × Entry)) (timeout : ℕ)
    → AreReceivers k
    → (k.tasks server).wait_port ≡ none
    → (k.tasks server).waiting ≡ false
    → AreReceivers (reply_on memory growth k server xlen grant receive timeout)
unfolding reply_on
reply_on-AreReceivers memory growth k server xlen grant receive timeout a idle rests =
    elim (Bool-cases (ltb msg_buf_size xlen)) [
      | inl long ↦ rw long ((set_r0-Kept k server err_overflow).inv a)
      | inr fits ↦
          let cap = (k.tasks server).reply_cap in
          let c = answer_by-Calm memory k server xlen grant (is_some receive) cap in
          rw fits (
            reply_end-AreReceivers growth server receive timeout
              (answer_by memory k server xlen grant (is_some receive) cap) (c.kept.inv a)
              (c.kept.idle server idle) (c.rests server rests))
    ]

-- PortTakeHeld.
take_caller-Kept :
    (k : Kernel) (p slot : ℕ) (call : HeldCall) (c : ℕ) → Kept k (take_caller k p slot call c).1
unfolding take_caller
take_caller-Kept k p slot call c =
    elim (Bool-cases ((k.tasks c).tid == call.caller_tid && (k.tasks c).waiting)) [
      | inl good ↦ rw good (
          Kept-trans (drop_held-Kept k p slot)
            (plain-Kept (drop_held k p slot) c not_held refl refl refl))
      | inr bad ↦ rw bad (Kept-self k)
    ]

take_slot-Kept :
    (k : Kernel) (p slot gen : ℕ) (call : HeldCall) (o : Option ℕ)
    → Kept k (take_slot k p slot gen call o).1
unfolding take_slot
take_slot-Kept k p slot gen call none = Kept-self k
take_slot-Kept k p slot gen call (some c) = elim (Bool-cases (call.gen == gen)) [
  | inl same ↦ rw same (take_caller-Kept k p slot call c)
  | inr other ↦ rw other (Kept-self k)
]

take_from-Kept :
    (k : Kernel) (p slot gen : ℕ) (o : Option (ℕ → HeldCall)) → Kept k (take_from k p slot gen o).1
unfolding take_from
take_from-Kept k p slot gen none = Kept-self k
take_from-Kept k p slot gen (some h) = take_slot-Kept k p slot gen (h slot) (h slot).caller

take_by-Kept : (k : Kernel) (ticket : ℕ) (o : Option Entry) → Kept k (take_by k ticket o).1
unfolding take_by
take_by-Kept k ticket none = Kept-self k
take_by-Kept k ticket (some e) = elim (Bool-cases (not (is_port e.type) || e.object == 0)) [
  | inl bad ↦ rw bad (Kept-self k)
  | inr good ↦ rw good (elim (Bool-cases (not (may_wait e))) [
    | inl denied ↦ rw denied (Kept-self k)
    | inr allowed ↦
        rw allowed (
          take_from-Kept k e.object (ticket_slot ticket) (ticket_gen ticket)
            (k.ports e.object).held)
  ])
]

reply_granted-Kept :
    (server xlen t : ℕ) (g : Granted) → Kept (state_of g) (reply_granted server xlen t g)
unfolding reply_granted
reply_granted-Kept server xlen t (refused c k) =
    Kept-trans (reply_fail-Calm k t c).kept (set_r0-Kept (reply_fail k t c) server c)
reply_granted-Kept server xlen t (granted w k) =
    Kept-trans (reply_deliver-Calm k server t xlen w).kept
      (set_r0-Kept (reply_deliver k server t xlen w) server 0)

reply_taken-Kept :
    (memory : Bool) (server xlen : ℕ) (grant : Option ℕ) (r : Result ℕ × Kernel)
    → Kept r.1 (reply_taken memory server xlen grant r)
unfolding reply_taken
reply_taken-Kept memory server xlen grant (fail c, k) = set_r0-Kept k server c
reply_taken-Kept memory server xlen grant (ok t, k) =
    let from = (k.tasks server).owner in
    let to = (k.tasks t).owner in
    Kept-trans (grant-Calm memory k from to grant).kept
      (reply_granted-Kept server xlen t (grant_handle_across memory k from to grant))

reply_through-AreReceivers :
    (memory : Bool) (growth : ℕ → Bool) (k : Kernel) (server xlen : ℕ) (grant : Option ℕ)
    (h timeout : ℕ) (r : Result Entry)
    → AreReceivers k
    → (k.tasks server).wait_port ≡ none
    → (k.tasks server).waiting ≡ false
    → AreReceivers (reply_through memory growth k server xlen grant h timeout r)
unfolding reply_through
reply_through-AreReceivers memory growth k server xlen grant h timeout (fail c) a idle rests =
    (set_r0-Kept k server c).inv a
reply_through-AreReceivers memory growth k server xlen grant h timeout (ok e) a idle rests =
    reply_on-AreReceivers memory growth k server xlen grant (some (h, e)) timeout a idle rests

-- A reply by a running task.
pub svc_reply-AreReceivers :
    (memory : Bool) (growth : ℕ → Bool) (k : Kernel) (server xlen : ℕ) (grant receive : Option ℕ)
    (r3 : ℕ)
    → AreReceivers k
    → (k.tasks server).wait_port ≡ none
    → (k.tasks server).waiting ≡ false
    → AreReceivers (svc_reply memory growth k server xlen grant receive r3)
unfolding svc_reply port_take_held
svc_reply-AreReceivers memory growth k server xlen grant none r3 a idle rests =
    elim (Bool-cases (r3 == 0)) [
      | inl current ↦
          rw current (reply_on-AreReceivers memory growth k server xlen grant none r3 a idle rests)
      | inr ticket ↦ rw ticket (elim (Bool-cases (ltb msg_buf_size xlen)) [
        | inl long ↦ rw long ((set_r0-Kept k server err_overflow).inv a)
        | inr fits ↦
            let e = table_get (k.tables (k.tasks server).owner) (ticket_index r3) in
            rw fits (
              (Kept-trans (take_by-Kept k r3 e)
                  (reply_taken-Kept memory server xlen grant (take_by k r3 e))).inv
                a)
      ])
    ]
svc_reply-AreReceivers memory growth k server xlen grant (some h) r3 a idle rests =
    reply_through-AreReceivers memory growth k server xlen grant h r3
      (receive_entry (lookup (k.tables (k.tasks server).owner) h)) a idle rests
