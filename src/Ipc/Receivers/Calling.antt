-- ===== src/Ipc/Receivers/Calling.antt =====
-- The system calls Call and WaitOn on a port keep the invariant of the receiver queues.
use zuzu.Base.{
  ℕ, ◌≡◌, refl, sym, Bool, true, false, not, Option, none, some, List, [], ◌∷◌, arith, ◌==◌, ltb,
  inl, inr, Bool-cases, ==_refl, is_some,
}
use mathlib.Core.Path.{subst}
use zuzu.Sched.Defs.{wait_queue_add}
use zuzu.Ipc.Calls.Defs.{
  Task, Kernel, on_task, on_port, calls, no_wait_slot, drop_receiver, set_r0, with_r0, unblocked,
  no_pending, sched_add, boost_servers, msg_buf_size, err_timeout, timeout_poll, arm_timeout,
  schedule,
}
use zuzu.Ipc.Calls.Waits.{leave_queue, sched_unblock, abort_wait}
use zuzu.Ipc.Calls.Message.{notify_pending, deliver_call}
use zuzu.Handle.Defs.{Entry}
use zuzu.Ipc.Calls.Defs.{
  Result, ok, fail, with_senders, switch_next, err_dead, err_busy, err_overflow,
}
use zuzu.Ipc.Calls.Grant.{
  allocate_grant_slot, validate_grant, validate_call_port, Granted, refused, granted,
}
use zuzu.Ipc.Calls.Message.{
  pop_sender, receive_turn, receive_from, port_receive, calls_on, with_message,
  call_block_as_sender, hand_over, hand_to, handoff_by, call_handoff, with_object,
  with_reply_object, call_on, call_valid, call_through, svc_call,
}
use zuzu.Ipc.Links.Grants.{state_of}
use zuzu.Ipc.Receivers.Ends.{
  plain-Kept, set_r0-Kept, leave_queue-Kept, sched_unblock-Kept, abort_wait-Kept,
}
use zuzu.Ipc.Receivers.Messages.{
  block_on-AreReceivers, notify_pending-Kept, deliver_call-Kept, take_call-Kept,
  allocate_grant_slot-Kept,
}
use zuzu.Ipc.Links.Grants.{allocate_grant_slot_tasks}
use zuzu.Ipc.Links.Receive.{none_of_is_some}
use zuzu.Ipc.Receivers.Kept.{
  AreReceivers, Kept, Kept-trans, Kept-calls, Kept-port, Kept-task, Gentle-idle,
}

-- A port after its first sender is taken off.
pop_sender-Kept : (k : Kernel) (p : ℕ) (rest : List ℕ) → Kept k (pop_sender k p rest)
pop_sender-Kept k p rest = Kept-port k p (with_senders rest) refl

-- It serves no call and is in none.
abbrev pub Still : Task → Type 0
Still x = (x.reply_cap ≡ none) × (x.waiting ≡ false)

Still-task :
    (k : Kernel) (t : ℕ) (f : Task → Task) (u : ℕ)
    → (Still (k.tasks t) → Still (f (k.tasks t)))
    → Still (k.tasks u)
    → Still ((on_task k t f).tasks u)
Still-task k t f u keep h = elim (Bool-cases (t == u)) [
  | inl same ↦ let z : u ≡ t = ground arith in rw same (keep (subst (λ v. Still (k.tasks v)) z h))
  | inr other ↦ rw other h
]

Still-leave :
    (k : Kernel) (t : ℕ) (o : Option ℕ) (u : ℕ)
    → Still (k.tasks u)
    → Still ((leave_queue k t o).tasks u)
unfolding leave_queue
Still-leave k t none u h = h
Still-leave k t (some p) u h =
    Still-task (on_port k p (drop_receiver t)) t no_wait_slot u (λ s. s) h

Still-abort : (k : Kernel) (t err u : ℕ) → Still (k.tasks u) → Still ((abort_wait k t err).tasks u)
unfolding abort_wait sched_unblock
Still-abort k t err u h =
    let k0 = set_r0 k t err in
    let k1 = on_task k0 t no_pending in
    let k2 = leave_queue k1 t (k1.tasks t).wait_port in
    Still-task k2 t unblocked u (λ s. (s.0, refl))
      (Still-leave k1 t (k1.tasks t).wait_port u
        (Still-task k0 t no_pending u (λ s. s) (Still-task k t (with_r0 err) u (λ s. s) h)))

-- One turn of a receive, by what the rest of the loop does.
receive_turn-AreReceivers :
    (next : Kernel → Kernel) (server p c : ℕ) (rest : List ℕ) (g : Granted)
    → AreReceivers (state_of g)
    → ((state_of g).tasks server).wait_port ≡ none
    → Still ((state_of g).tasks server)
    → ((k : Kernel)
        → AreReceivers k
        → (k.tasks server).wait_port ≡ none
        → Still (k.tasks server)
        → AreReceivers (next k))
    → AreReceivers (receive_turn next server p c rest g)
unfolding receive_turn
receive_turn-AreReceivers next server p c rest (refused err k) a idle still ih =
    let k1 = pop_sender k p rest in
    let kept = Kept-trans (pop_sender-Kept k p rest) (abort_wait-Kept k1 c err) in
    ih (abort_wait k1 c err) (kept.inv a) (kept.idle server idle)
      (Still-abort k1 c err server still)
receive_turn-AreReceivers next server p c rest (granted w k) a idle still ih =
    (Kept-trans (pop_sender-Kept k p rest)
        (take_call-Kept (pop_sender k p rest) server p c w idle)).inv
      a

receive_from-AreReceivers :
    (memory : ℕ → Bool) (server p timeout : ℕ) (queue : List ℕ) (k : Kernel)
    → AreReceivers k
    → (k.tasks server).wait_port ≡ none
    → Still (k.tasks server)
    → AreReceivers (receive_from memory server p timeout queue k)
unfolding receive_from
receive_from-AreReceivers memory server p timeout [] k a idle still =
    block_on-AreReceivers k server p timeout a idle still.0 still.1
receive_from-AreReceivers memory server p timeout (c ∷ rest) k a idle still =
    let x = k.tasks c in
    let to = (k.tasks server).owner in
    let g = allocate_grant_slot (memory c) k x.owner to x.pending_grant_handle in
    let kept = allocate_grant_slot-Kept (memory c) k x.owner to x.pending_grant_handle in
    let tasks = allocate_grant_slot_tasks (memory c) k x.owner to x.pending_grant_handle in
    receive_turn-AreReceivers (receive_from memory server p timeout rest) server p c rest g
      (kept.inv a) (kept.idle server idle)
      (subst (λ (f : ℕ → Task). Still (f server)) (sym tasks) still)
      (λ k' a' i' s'. receive_from-AreReceivers memory server p timeout rest k' a' i' s')

-- PortReceive by a running task.
pub port_receive-AreReceivers :
    (memory : ℕ → Bool) (k : Kernel) (server p timeout : ℕ)
    → AreReceivers k
    → (k.tasks server).wait_port ≡ none
    → (k.tasks server).waiting ≡ false
    → AreReceivers (port_receive memory k server p timeout)
unfolding port_receive
port_receive-AreReceivers memory k server p timeout a idle rests =
    elim (Bool-cases (not (k.ports p).alive)) [
      | inl dead ↦ rw dead ((set_r0-Kept k server err_dead).inv a)
      | inr alive ↦ rw alive (elim (Bool-cases (is_some (k.tasks server).reply_cap)) [
        | inl busy ↦ rw busy ((set_r0-Kept k server err_busy).inv a)
        | inr free ↦ rw free (
            receive_from-AreReceivers memory server p timeout (k.ports p).sender_queue k a idle
              (none_of_is_some (k.tasks server).reply_cap free, rests))
      ])
    ]

-- CallBlockAsSender and the handoff by a task that receives nowhere.
block-Kept :
    (k : Kernel) (c p rc xlen : ℕ) (grant : Option ℕ) (timeout : ℕ)
    → (k.tasks c).wait_port ≡ none
    → Kept k (call_block_as_sender k c p rc xlen grant timeout)
unfolding call_block_as_sender
block-Kept k c p rc xlen grant timeout idle =
    let senders = wait_queue_add (λ u. (k.tasks u).priority) (k.ports p).sender_queue c in
    let k1 = on_task k c (calls_on p rc) in
    let k2 = on_task k1 c (with_message xlen grant) in
    let k3 = on_port k2 p (with_senders senders) in
    let k4 = calls (calls k3 (arm_timeout c timeout)) (boost_servers p) in
    Kept-trans (Kept-task k c (calls_on p rc) (Gentle-idle idle refl)) (
      Kept-trans (plain-Kept k1 c (with_message xlen grant) refl refl refl) (
        Kept-trans (Kept-port k2 p (with_senders senders) refl) (
          Kept-trans (Kept-calls k3 (arm_timeout c timeout)) (
            Kept-trans (Kept-calls (calls k3 (arm_timeout c timeout)) (boost_servers p)) (
              Kept-trans (notify_pending-Kept k4 p) (Kept-calls (notify_pending k4 p) schedule))))))

hand_over-Kept : (queued : Bool) (k : Kernel) (rx : ℕ) → Kept k (hand_over queued k rx)
unfolding hand_over
hand_over-Kept true k rx =
    Kept-trans (Kept-calls k (sched_add rx)) (Kept-calls (calls k (sched_add rx)) schedule)
hand_over-Kept false k rx = Kept-calls k (switch_next rx)

left_idle :
    (k : Kernel) (t : ℕ) (o : Option ℕ)
    → (k.tasks t).wait_port ≡ o
    → ((leave_queue k t o).tasks t).wait_port ≡ none
unfolding leave_queue
left_idle k t none e = e
left_idle k t (some p) e = rw (==_refl t)

hand_to-Kept :
    (queued : Bool) (k : Kernel) (c p rx rc xlen timeout w : ℕ)
    → (k.tasks c).wait_port ≡ none
    → Kept k (hand_to queued k c p rx rc xlen timeout w)
unfolding hand_to
hand_to-Kept queued k c p rx rc xlen timeout w idle =
    let o = (k.tasks rx).wait_port in
    let k1 = leave_queue k rx o in
    let k2 = on_task k1 c (calls_on p rc) in
    let k3 = calls k2 (arm_timeout c timeout) in
    let k4 = deliver_call k3 c rx (some rc) xlen w in
    let left = leave_queue-Kept k rx o refl in
    let called =
      Kept-trans (Kept-task k1 c (calls_on p rc) (Gentle-idle (left.idle c idle) refl))
        (Kept-calls k2 (arm_timeout c timeout)) in
    let free = called.idle rx (left_idle k rx o refl) in
    Kept-trans left (
      Kept-trans called (
        Kept-trans (deliver_call-Kept k3 c rx (some rc) xlen w free)
          (Kept-trans (sched_unblock-Kept k4 rx) (hand_over-Kept queued (sched_unblock k4 rx) rx))))

handoff_by-Kept :
    (queued : Bool) (c p rx rc xlen timeout : ℕ) (g : Granted)
    → ((state_of g).tasks c).wait_port ≡ none
    → Kept (state_of g) (handoff_by queued c p rx rc xlen timeout g)
unfolding handoff_by
handoff_by-Kept queued c p rx rc xlen timeout (refused err k) idle = set_r0-Kept k c err
handoff_by-Kept queued c p rx rc xlen timeout (granted w k) idle =
    hand_to-Kept queued k c p rx rc xlen timeout w idle

call_on-Kept :
    (memory queued : Bool) (k : Kernel) (c p : ℕ) (receivers : List ℕ) (xlen : ℕ) (grant : Option ℕ)
    (timeout : ℕ)
    → (k.tasks c).wait_port ≡ none
    → Kept k (call_on memory queued k c p receivers xlen grant timeout)
unfolding call_on call_handoff
call_on-Kept memory queued k c p [] xlen grant timeout idle =
    block-Kept k c p c xlen grant timeout idle
call_on-Kept memory queued k c p (rx ∷ rest) xlen grant timeout idle =
    let g = allocate_grant_slot memory k (k.tasks c).owner (k.tasks rx).owner grant in
    let kept = allocate_grant_slot-Kept memory k (k.tasks c).owner (k.tasks rx).owner grant in
    Kept-trans kept (handoff_by-Kept queued c p rx c xlen timeout g (kept.idle c idle))

call_valid-Kept :
    (memory queued : Bool) (k : Kernel) (c : ℕ) (e : Entry) (xlen : ℕ) (grant : Option ℕ)
    (timeout : ℕ) (checked : Option ℕ)
    → (k.tasks c).wait_port ≡ none
    → Kept k (call_valid memory queued k c e xlen grant timeout checked)
unfolding call_valid with_reply_object
call_valid-Kept memory queued k c e xlen grant timeout (some err) idle = set_r0-Kept k c err
call_valid-Kept memory queued k c e xlen grant timeout none idle =
    elim (Bool-cases (timeout == timeout_poll)) [
      | inl poll ↦ rw poll (set_r0-Kept k c err_timeout)
      | inr waits ↦
          let k1 = on_task k c (with_object c e.marker) in
          let first = plain-Kept k c (with_object c e.marker) refl refl refl in
          rw waits (
            Kept-trans first (
              call_on-Kept memory queued k1 c e.object (k.ports e.object).receiver_queue xlen grant
                timeout (first.idle c idle)))
    ]

call_through-Kept :
    (memory queued : Bool) (k : Kernel) (c xlen : ℕ) (grant : Option ℕ) (timeout : ℕ)
    (checked : Result Entry)
    → (k.tasks c).wait_port ≡ none
    → Kept k (call_through memory queued k c xlen grant timeout checked)
unfolding call_through
call_through-Kept memory queued k c xlen grant timeout (fail err) idle = set_r0-Kept k c err
call_through-Kept memory queued k c xlen grant timeout (ok e) idle =
    call_valid-Kept memory queued k c e xlen grant timeout
      (validate_grant k (k.tasks c).owner grant) idle

-- A call by a running task.
pub svc_call-Kept :
    (memory queued : Bool) (k : Kernel) (c h xlen : ℕ) (grant : Option ℕ) (timeout : ℕ)
    → (k.tasks c).wait_port ≡ none
    → Kept k (svc_call memory queued k c h xlen grant timeout)
unfolding svc_call
svc_call-Kept memory queued k c h xlen grant timeout idle =
    elim (Bool-cases (ltb msg_buf_size xlen)) [
      | inl long ↦ rw long (set_r0-Kept k c err_overflow)
      | inr fits ↦ rw fits (
          call_through-Kept memory queued k c xlen grant timeout
            (validate_call_port k (k.tasks c).owner h) idle)
    ]
