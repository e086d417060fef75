-- ===== src/Ipc/Links/Call.antt =====
-- SvcCall queues its caller at the port or hands it to the first receiver, and moves no other caller.
use zuzu.Base.{
  ℕ, ◌≡◌, refl, sym, ap, ◌∙◌, Bool, true, false, Option, none, some, List, [], ◌∷◌, arith, ◌==◌,
  ltb, inl, inr, Bool-cases, ==_refl,
}
use zuzu.Handle.Defs.{Entry}
use zuzu.Ipc.Calls.Defs.{
  Task, Kernel, Result, ok, fail, on_task, calls, arm_timeout, schedule, sched_add, switch_next,
  leave_sleep, unblocked, msg_buf_size, err_overflow, err_timeout, timeout_poll,
}
use zuzu.Ipc.Calls.Waits.{leave_queue, sched_unblock}
use zuzu.Ipc.Calls.Grant.{
  validate_call_port, validate_grant, allocate_grant_slot, Granted, refused, granted,
}
use zuzu.Ipc.Calls.Message.{
  calls_on, deliver_call, hand_over, hand_to, handoff_by, call_handoff, with_object,
  with_reply_object, call_on, call_valid, call_through, svc_call,
}
use zuzu.Ipc.Links.Place.{with_server, IsAt-Same, Same, Same-trans, IsLinked}
use zuzu.Ipc.Links.Frames.{Quiet, Same-calls, Same-other, Same-quiet}
use zuzu.Ipc.Links.Ends.{Unnamed-Same, Unnamed-nowhere, leave_queue-Same}
use zuzu.Ipc.Links.Cancel.{moved-IsLinked, same-IsLinked, resting}
use zuzu.Ipc.Links.Deliver.{InTransit-Same, deliver_call-Delivered, cap_kept}
use zuzu.Ipc.Links.Queue.{set_r0-Same}
use zuzu.Ipc.Links.Receive.{free-Same}
use zuzu.Ipc.Links.Block.{Ready, calls_on-InTransit, block-IsLinked}
use zuzu.Ipc.Links.Grants.{state_of, allocate_grant_slot-Same, allocate_grant_slot_tasks}

-- SchedUnblock of a task that is in no call moves no caller.
unblocked-Quiet : (x : Task) → x.waiting ≡ false → Quiet x (unblocked x)
unblocked-Quiet x rests = record {
  waits = sym rests;
  holder = refl;
  held_at = refl;
  slot = refl;
  tid = refl;
  lives = λ h. refl;
  blocked_at = λ h. absurd (cc (h, rests));
  pending = λ h. refl;
  storage = λ h. refl;
}

pub unblock_resting-Same :
    (k : Kernel) (t d : ℕ) → (k.tasks t).waiting ≡ false → Same k (sched_unblock k t) d
unfolding sched_unblock
unblock_resting-Same k t d rests =
    let o = (k.tasks t).wait_port in
    let k1 = calls (leave_queue k t o) (leave_sleep t) in
    let s = λ (u : ℕ).
      Same-trans (leave_queue-Same k t o u) (Same-calls (leave_queue k t o) (leave_sleep t) u) in
    Same-trans (s d)
      (Same-quiet k1 t unblocked (unblocked-Quiet (k1.tasks t) ((s t).waits ∙ rests)) d refl)

hand_over-Same : (queued : Bool) (k : Kernel) (rx d : ℕ) → Same k (hand_over queued k rx) d
unfolding hand_over
hand_over-Same true k rx d = Same-trans (Same-calls k (sched_add rx) d) (Same-calls _ schedule d)
hand_over-Same false k rx d = Same-calls k (switch_next rx) d

leave_queue_task :
    (k : Kernel) (t : ℕ) (o : Option ℕ) (c : ℕ)
    → (t == c) ≡ false
    → (leave_queue k t o).tasks c ≡ k.tasks c
unfolding leave_queue
leave_queue_task k t none c e = refl
leave_queue_task k t (some p) c e = rw e

Ready-Same : {k k' : Kernel} {c : ℕ} → Same k k' c → k'.tasks c ≡ k.tasks c → Ready k c → Ready k' c
Ready-Same s e r = record {
  unnamed = Unnamed-Same s r.unnamed;
  holder = ap (λ (x : Task). x.reply_holder) e ∙ r.holder;
  held_at = ap (λ (x : Task). x.held_port) e ∙ r.held_at;
  task = ap (λ (x : Task). x.reply_cap_storage.caller_task) e ∙ r.task;
  tid =
      ap (λ (x : Task). x.reply_cap_storage.caller_tid) e
      ∙ r.tid
      ∙ sym (ap (λ (x : Task). x.tid) e);
}

-- A receiver that can be served, and is not the caller.
pub record CanServe (k : Kernel) (rx c : ℕ) : Type 0 where
  pub free : (k.tasks rx).reply_cap ≡ none
  pub rests : (k.tasks rx).waiting ≡ false
  pub other : (c == rx) ≡ false

flip : (a b : ℕ) → (a == b) ≡ false → (b == a) ≡ false
flip a b e = ground arith

-- The handoff puts the caller with the receiver.
hand_to-IsLinked :
    (queued : Bool) (k : Kernel) (c p rx xlen timeout w : ℕ)
    → IsLinked k
    → Ready k c
    → CanServe k rx c
    → IsLinked (hand_to queued k c p rx c xlen timeout w)
unfolding hand_to
hand_to-IsLinked queued k c p rx xlen timeout w l r s =
    let k1 = leave_queue k rx (k.tasks rx).wait_port in
    let left = λ (d : ℕ). leave_queue-Same k rx (k.tasks rx).wait_port d in
    let k2 = on_task k1 c (calls_on p c) in
    let k3 = calls k2 (arm_timeout c timeout) in
    let k4 = deliver_call k3 c rx (some c) xlen w in
    let k5 = sched_unblock k4 rx in
    let rx_other : (rx == c) ≡ false = flip c rx s.other in
    let ready = Ready-Same (left c) (leave_queue_task k rx (k.tasks rx).wait_port c rx_other) r in
    let transit =
      InTransit-Same (Same-calls k2 (arm_timeout c timeout) c) (calls_on-InTransit k1 c p ready) in
    let before = λ (d : ℕ) (e : (c == d) ≡ false). Same-trans (left d) (
      Same-trans (Same-other k1 c (calls_on p c) d e refl)
        (Same-calls k2 (arm_timeout c timeout) d)) in
    let free : (k3.tasks rx).reply_cap ≡ none =
      cap_kept k1 c (calls_on p c) rx refl ∙ free-Same rx left s.free in
    let done = deliver_call-Delivered k3 c rx xlen w transit free in
    let rests = (Same-trans (before rx s.other) (done.others rx s.other)).waits ∙ s.rests in
    let last =
      λ (d : ℕ). Same-trans (unblock_resting-Same k4 rx d rests) (hand_over-Same queued k5 rx d) in
    moved-IsLinked c l (record { place = with_server rx; at = IsAt-Same (last c) done.served })
      (λ d e. Same-trans (before d e) (Same-trans (done.others d e) (last d)))

handoff_by-IsLinked :
    (queued : Bool) (c p rx xlen timeout : ℕ) (g : Granted)
    → IsLinked (state_of g)
    → Ready (state_of g) c
    → CanServe (state_of g) rx c
    → IsLinked (handoff_by queued c p rx c xlen timeout g)
unfolding handoff_by
handoff_by-IsLinked queued c p rx xlen timeout (refused err k) l r s =
    same-IsLinked (λ d. set_r0-Same k c err d) l
handoff_by-IsLinked queued c p rx xlen timeout (granted w k) l r s =
    hand_to-IsLinked queued k c p rx xlen timeout w l r s

-- The first receiver of a port, if there is one, can serve the caller.
abbrev pub HeadServes : Kernel → List ℕ → ℕ → Type 0
HeadServes k [] c = Unit {0}
HeadServes k (rx ∷ rest) c = CanServe k rx c

call_on-IsLinked :
    (memory queued : Bool) (k : Kernel) (c p : ℕ) (receivers : List ℕ) (xlen : ℕ) (grant : Option ℕ)
    (timeout : ℕ)
    → IsLinked k
    → Ready k c
    → HeadServes k receivers c
    → IsLinked (call_on memory queued k c p receivers xlen grant timeout)
unfolding call_on call_handoff
call_on-IsLinked memory queued k c p [] xlen grant timeout l r s =
    block-IsLinked k c p xlen grant timeout l r
call_on-IsLinked memory queued k c p (rx ∷ rest) xlen grant timeout l r s =
    let from = (k.tasks c).owner in
    let to = (k.tasks rx).owner in
    let same = λ (d : ℕ). allocate_grant_slot-Same memory k from to grant d in
    let tasks = allocate_grant_slot_tasks memory k from to grant in
    handoff_by-IsLinked queued c p rx xlen timeout (allocate_grant_slot memory k from to grant)
      (same-IsLinked same l) (Ready-Same (same c) (ap (λ (f : ℕ → Task). f c) tasks) r)
      (record {
        free = free-Same rx same s.free;
        rests = (same rx).waits ∙ s.rests;
        other = s.other;
      })

with_object-Quiet : (x : Task) (c marker : ℕ) → x.waiting ≡ false → Quiet x (with_object c marker x)
with_object-Quiet x c marker rests = record {
  waits = refl;
  holder = refl;
  held_at = refl;
  slot = refl;
  tid = refl;
  lives = λ h. h;
  blocked_at = λ h. refl;
  pending = λ h. refl;
  storage = λ h. absurd (cc (h, rests));
}

HeadServes-kept :
    (k : Kernel) (c : ℕ) (e : Entry) (receivers : List ℕ)
    → HeadServes k receivers c
    → HeadServes (with_reply_object k c e) receivers c
unfolding with_reply_object
HeadServes-kept k c e [] s = tt
HeadServes-kept k c e (rx ∷ rest) s = record {
  free = rw s.other s.free;
  rests = rw s.other s.rests;
  other = s.other;
}

-- The call of a running task, once its checks are passed.
called-IsLinked :
    (memory queued : Bool) (k : Kernel) (c : ℕ) (e : Entry) (receivers : List ℕ) (xlen : ℕ)
    (grant : Option ℕ) (timeout : ℕ)
    → IsLinked k
    → (k.tasks c).waiting ≡ false
    → HeadServes k receivers c
    → IsLinked
        (call_on memory queued (with_reply_object k c e) c e.object receivers xlen grant timeout)
unfolding with_reply_object
called-IsLinked memory queued k c e receivers xlen grant timeout l rests s =
    let q = with_object-Quiet (k.tasks c) c e.marker rests in
    let same = λ (d : ℕ). Same-quiet k c (with_object c e.marker) q d refl in
    let a = IsAt-Same (same c) (resting (l c).place (l c).at rests) in
    call_on-IsLinked memory queued (with_reply_object k c e) c e.object receivers xlen grant timeout
      (same-IsLinked same l)
      (record {
        unnamed = Unnamed-nowhere a;
        holder = a.holder;
        held_at = a.held_at;
        task = rw (==_refl c);
        tid = rw (==_refl c);
      })
      (HeadServes-kept k c e receivers s)

call_valid-IsLinked :
    (memory queued : Bool) (k : Kernel) (c : ℕ) (e : Entry) (xlen : ℕ) (grant : Option ℕ)
    (timeout : ℕ) (checked : Option ℕ)
    → IsLinked k
    → (k.tasks c).waiting ≡ false
    → HeadServes k (k.ports e.object).receiver_queue c
    → IsLinked (call_valid memory queued k c e xlen grant timeout checked)
unfolding call_valid
call_valid-IsLinked memory queued k c e xlen grant timeout (some err) l rests s =
    same-IsLinked (λ d. set_r0-Same k c err d) l
call_valid-IsLinked memory queued k c e xlen grant timeout none l rests s =
    elim (Bool-cases (timeout == timeout_poll)) [
      | inl poll ↦ rw poll (same-IsLinked (λ d. set_r0-Same k c err_timeout d) l)
      | inr waits ↦ rw waits (
          called-IsLinked memory queued k c e (k.ports e.object).receiver_queue xlen grant timeout l
            rests s)
    ]

call_through-IsLinked :
    (memory queued : Bool) (k : Kernel) (c xlen : ℕ) (grant : Option ℕ) (timeout : ℕ)
    (checked : Result Entry)
    → IsLinked k
    → (k.tasks c).waiting ≡ false
    → ((p : ℕ) → HeadServes k (k.ports p).receiver_queue c)
    → IsLinked (call_through memory queued k c xlen grant timeout checked)
unfolding call_through
call_through-IsLinked memory queued k c xlen grant timeout (fail err) l rests s =
    same-IsLinked (λ d. set_r0-Same k c err d) l
call_through-IsLinked memory queued k c xlen grant timeout (ok e) l rests s =
    call_valid-IsLinked memory queued k c e xlen grant timeout
      (validate_grant k (k.tasks c).owner grant) l rests (s e.object)

-- A call by a task that is in no call itself keeps each task at one place.
pub svc_call-IsLinked :
    (memory queued : Bool) (k : Kernel) (c h xlen : ℕ) (grant : Option ℕ) (timeout : ℕ)
    → IsLinked k
    → (k.tasks c).waiting ≡ false
    → ((p : ℕ) → HeadServes k (k.ports p).receiver_queue c)
    → IsLinked (svc_call memory queued k c h xlen grant timeout)
unfolding svc_call
svc_call-IsLinked memory queued k c h xlen grant timeout l rests s =
    elim (Bool-cases (ltb msg_buf_size xlen)) [
      | inl long ↦ rw long (same-IsLinked (λ d. set_r0-Same k c err_overflow d) l)
      | inr fits ↦ rw fits (
          call_through-IsLinked memory queued k c xlen grant timeout
            (validate_call_port k (k.tasks c).owner h) l rests s)
    ]
