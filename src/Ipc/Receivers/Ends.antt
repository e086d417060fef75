-- ===== src/Ipc/Receivers/Ends.antt =====
-- The end of a wait keeps the invariant of the receiver queues.
use zuzu.Base.{
  ℕ, ◌≡◌, ◌≢◌, refl, sym, ◌∙◌, Bool, true, false, Option, none, some, arith, ◌==◌, if◌then◌else◌,
  inl, inr, Bool-cases, ==_refl, is_some,
}
use mathlib.Core.Path.{subst}
use zuzu.Sched.Defs.{erase}
use zuzu.Sched.Tasks.{count, count-erase_self, count-erase_other}
use zuzu.Ipc.Calls.Defs.{
  Task, Kernel, on_task, on_port, calls, set_r0, with_r0, unblocked, no_pending, with_reply_cap,
  with_holder, not_held, drop_server, drop_sender, drop_caller, not_serving, leave_sleep, sched_add,
  recompute_priority, boost_servers, err_timeout,
}
use zuzu.Ipc.Calls.Waits.{
  leave_queue, sched_unblock, abort_wait, detach_from, detach_serving, clear_reply_cap, drop_held,
  withdraw, forget_holder, cancel_call, timed_out, wake_timed_out,
}
use zuzu.Ipc.Receivers.Kept.{Kept, Kept-self, Kept-trans, Kept-calls, Kept-port, Kept-task, gentle}

-- A task that leaves the queue it is in.
pub leave_queue-Kept :
    (k : Kernel) (t : ℕ) (o : Option ℕ) → (k.tasks t).wait_port ≡ o → Kept k (leave_queue k t o)
unfolding leave_queue
leave_queue-Kept k t none e = Kept-self k
leave_queue-Kept k t (some p) e = record {
  inv = λ a. record {
    queue = λ q u. elim (Bool-cases (p == q)) [
      | inl same ↦
          let z : p ≡ q = ground arith in
          elim (Bool-cases (t == u)) [
            | inl me ↦
                let y : t ≡ u = ground arith in
                let n : count t (k.ports p).receiver_queue ≡ 1 =
                  a.queue p t ∙ rw e (rw (==_refl p)) in
                rw (same, me)
                  (subst (λ v. count v (erase t (k.ports p).receiver_queue) ≡ 0) y
                    (count-erase_self t (k.ports p).receiver_queue ∙ rw n))
            | inr you ↦
                let ne : t ≢ u = ground arith in
                rw (same, you)
                  (count-erase_other t u (k.ports p).receiver_queue ne ∙ a.queue p u ∙ rw z)
          ]
      | inr other ↦ elim (Bool-cases (t == u)) [
        | inl me ↦
            let y : u ≡ t = ground arith in rw (other, me) (a.queue q u ∙ rw y (rw e (rw other)))
        | inr you ↦ rw (other, you) (a.queue q u)
      ]
    ];
    free = λ u. elim (Bool-cases (t == u)) [
      | inl me ↦ rw me (λ h. absurd (cc))
      | inr you ↦ rw you (a.free u)
    ];
    rests = λ u. elim (Bool-cases (t == u)) [
      | inl me ↦ rw me (λ h. absurd (cc))
      | inr you ↦ rw you (a.rests u)
    ];
  };
  idle = λ u h. elim (Bool-cases (t == u)) [ inl me ↦ rw me | inr you ↦ rw you h ];
}

pub sched_unblock-Kept : (k : Kernel) (t : ℕ) → Kept k (sched_unblock k t)
unfolding sched_unblock
sched_unblock-Kept k t =
    let k1 = leave_queue k t (k.tasks t).wait_port in
    Kept-trans (leave_queue-Kept k t (k.tasks t).wait_port refl) (
      Kept-trans (Kept-calls k1 (leave_sleep t)) (
        Kept-task (calls k1 (leave_sleep t)) t unblocked
          (record { slot = refl; free = λ i h. h; rests = λ i h. refl })))

-- A write that keeps the three fields.
pub plain-Kept :
    (k : Kernel) (t : ℕ) (f : Task → Task)
    → (f (k.tasks t)).wait_port ≡ (k.tasks t).wait_port
    → (f (k.tasks t)).reply_cap ≡ (k.tasks t).reply_cap
    → (f (k.tasks t)).waiting ≡ (k.tasks t).waiting
    → Kept k (on_task k t f)
plain-Kept k t f a b c = Kept-task k t f (gentle a b c)

pub set_r0-Kept : (k : Kernel) (t v : ℕ) → Kept k (set_r0 k t v)
set_r0-Kept k t v = plain-Kept k t (with_r0 v) refl refl refl

pub abort_wait-Kept : (k : Kernel) (t err : ℕ) → Kept k (abort_wait k t err)
unfolding abort_wait
abort_wait-Kept k t err =
    let k1 = on_task (set_r0 k t err) t no_pending in
    Kept-trans (set_r0-Kept k t err) (
      Kept-trans (plain-Kept (set_r0 k t err) t no_pending refl refl refl)
        (Kept-trans (sched_unblock-Kept k1 t) (Kept-calls (sched_unblock k1 t) (sched_add t))))

detach_from-Kept : (k : Kernel) (t : ℕ) (o : Option ℕ) → Kept k (detach_from k t o)
unfolding detach_from
detach_from-Kept k t none = Kept-self k
detach_from-Kept k t (some p) =
    Kept-trans (Kept-port k p (drop_server t) refl)
      (plain-Kept (on_port k p (drop_server t)) t not_serving refl refl refl)

pub clear_reply_cap-Kept : (k : Kernel) (t : ℕ) → Kept k (clear_reply_cap k t)
unfolding clear_reply_cap detach_serving
clear_reply_cap-Kept k t =
    let k1 = on_task k t (with_reply_cap none) in
    let o = (k1.tasks t).serving_port in
    Kept-trans
      (Kept-task k t (with_reply_cap none)
        (record { slot = refl; free = λ i h. refl; rests = λ i h. h }))
      (Kept-trans (detach_from-Kept k1 t o)
        (Kept-calls (detach_from k1 t o) (recompute_priority t)))

pub drop_held-Kept : (k : Kernel) (p slot : ℕ) → Kept k (drop_held k p slot)
unfolding drop_held
drop_held-Kept k p slot = Kept-port k p (drop_caller slot) refl

withdraw-Kept : (k : Kernel) (t : ℕ) (o b : Option ℕ) → Kept k (withdraw k t o b)
unfolding withdraw
withdraw-Kept k t (some p) b =
    let slot = (k.tasks t).held_slot in
    Kept-trans (drop_held-Kept k p slot) (plain-Kept (drop_held k p slot) t not_held refl refl refl)
withdraw-Kept k t none (some p) = Kept-port k p (drop_sender t) refl
withdraw-Kept k t none none = Kept-self k

forget_holder-Kept :
    (k : Kernel) (t : ℕ) (pending : Bool) (o b : Option ℕ) → Kept k (forget_holder k t pending o b)
unfolding forget_holder
forget_holder-Kept k t true (some s) b =
    Kept-trans (clear_reply_cap-Kept k s)
      (plain-Kept (clear_reply_cap k s) t (with_holder none) refl refl refl)
forget_holder-Kept k t true none (some p) = Kept-calls k (boost_servers p)
forget_holder-Kept k t true none none = Kept-self k
forget_holder-Kept k t false o b = Kept-self k

cancel_call-Kept : (k : Kernel) (t : ℕ) → Kept k (cancel_call k t)
unfolding cancel_call
cancel_call-Kept k t =
    let x = k.tasks t in
    let k1 = withdraw k t x.held_port x.blocked_port in
    let pending = is_some x.pending_reply_cap in
    let k2 = forget_holder k1 t pending x.reply_holder x.blocked_port in
    Kept-trans (withdraw-Kept k t x.held_port x.blocked_port) (
      Kept-trans (forget_holder-Kept k1 t pending x.reply_holder x.blocked_port)
        (plain-Kept k2 t no_pending refl refl refl))

pub wake_timed_out-Kept : (k : Kernel) (t : ℕ) → Kept k (wake_timed_out k t)
unfolding wake_timed_out
wake_timed_out-Kept k t =
    let call = on_task (cancel_call k t) t timed_out in
    let k1 = if (k.tasks t).waiting then call else k in
    let first : Kept k k1 = elim (Bool-cases (k.tasks t).waiting) [
      | inl waits ↦
          subst (λ b. Kept k (if b then call else k)) (sym waits)
            (Kept-trans (cancel_call-Kept k t)
              (plain-Kept (cancel_call k t) t timed_out refl refl refl))
      | inr rests ↦ subst (λ b. Kept k (if b then call else k)) (sym rests) (Kept-self k)
    ] in
    Kept-trans first (
      Kept-trans (set_r0-Kept k1 t err_timeout) (
        Kept-trans (sched_unblock-Kept (set_r0 k1 t err_timeout) t)
          (Kept-calls (sched_unblock (set_r0 k1 t err_timeout) t) (sched_add t))))
