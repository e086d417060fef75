-- ===== src/Ipc/Links/Ends.antt =====
-- The end of a wait leaves the callers it is not about where they are, and a task that nothing names
-- any more is then in no call.
use zuzu.Base.{
  ℕ, ◌≡◌, refl, sym, ◌∙◌, false, Option, none, some, arith, ◌==◌, inl, inr, Bool-cases, ==_refl,
}
use zuzu.Sched.Tasks.{count}
use zuzu.Ipc.Calls.Defs.{
  Task, Kernel, names, on_task, on_port, with_r0, set_r0, sched_add, leave_sleep,
  recompute_priority, no_wait_slot, unblocked, no_pending, not_serving, with_reply_cap,
  drop_receiver, drop_server,
}
use zuzu.Ipc.Calls.Waits.{
  leave_queue, sched_unblock, abort_wait, detach_from, detach_serving, clear_reply_cap,
}
use zuzu.Ipc.Links.Place.{nowhere, held_call, IsAt, Same, Same-self, Same-trans}
use zuzu.Ipc.Links.Frames.{plain, Same-calls, Same-other, Same-quiet, Same-queue}

-- No queue, reply capability or table of held calls names `c`.
pub record Unnamed (k : Kernel) (c : ℕ) : Type 0 where
  pub queue : (p : ℕ) → count c (k.ports p).sender_queue ≡ 0
  pub caps : (s : ℕ) → names (k.tasks s).reply_cap c ≡ false
  pub calls_held : (p i : ℕ) → names (held_call k p i).caller c ≡ false

pub Unnamed-Same : {k k' : Kernel} {c : ℕ} → Same k k' c → Unnamed k c → Unnamed k' c
Unnamed-Same s u = record {
  queue = λ p. s.queue p ∙ u.queue p;
  caps = λ t. s.caps t ∙ u.caps t;
  calls_held = λ p i. s.calls_held p i ∙ u.calls_held p i;
}

pub Unnamed-on_task :
    (k : Kernel) (t : ℕ) (f : Task → Task) (c : ℕ)
    → Unnamed k c
    → names (f (k.tasks t)).reply_cap c ≡ false
    → Unnamed (on_task k t f) c
Unnamed-on_task k t f c u h = record {
  queue = u.queue;
  caps = λ s. elim (Bool-cases (t == s)) [ inl same ↦ rw same h | inr other ↦ rw other (u.caps s) ];
  calls_held = u.calls_held;
}

pub Unnamed-nowhere : {k : Kernel} {c : ℕ} → IsAt k c nowhere → Unnamed k c
Unnamed-nowhere a = record { queue = a.queue; caps = a.caps; calls_held = a.calls_held }

-- A task that nothing names is in no call once its own fields say so.
pub nowhere-IsAt :
    (k : Kernel) (c : ℕ)
    → Unnamed k c
    → (k.tasks c).waiting ≡ false
    → (k.tasks c).reply_holder ≡ none
    → (k.tasks c).held_port ≡ none
    → IsAt k c nowhere
nowhere-IsAt k c u w h g = record {
  waits = w;
  holder = h;
  held_at = g;
  local = tt;
  object = λ n. absurd (cc);
  queue = u.queue;
  caps = u.caps;
  calls_held = u.calls_held;
  tids = λ p i n. absurd (cc);
}

pub leave_queue-Same : (k : Kernel) (t : ℕ) (o : Option ℕ) (d : ℕ) → Same k (leave_queue k t o) d
unfolding leave_queue
leave_queue-Same k t none d = Same-self k d
leave_queue-Same k t (some p) d =
    Same-trans (Same-queue k p (drop_receiver t) d refl refl)
      (Same-quiet (on_port k p (drop_receiver t)) t no_wait_slot plain d refl)

leave_queue_cap :
    (k : Kernel) (t : ℕ) (o : Option ℕ) (u : ℕ)
    → ((leave_queue k t o).tasks u).reply_cap ≡ (k.tasks u).reply_cap
unfolding leave_queue
leave_queue_cap k t none u = refl
leave_queue_cap k t (some p) u = ground arith

-- SchedUnblock of a task leaves the other callers where they are.
pub sched_unblock-Same : (k : Kernel) (t d : ℕ) → (t == d) ≡ false → Same k (sched_unblock k t) d
unfolding sched_unblock
sched_unblock-Same k t d e =
    Same-trans (leave_queue-Same k t (k.tasks t).wait_port d)
      (Same-trans (Same-calls _ (leave_sleep t) d) (Same-other _ t unblocked d e refl))

-- The fields of the task after it.
pub record Unblocked (x y : Task) : Type 0 where
  pub waits : y.waiting ≡ false
  pub holder : y.reply_holder ≡ x.reply_holder
  pub held_at : y.held_port ≡ x.held_port
  pub cap : y.reply_cap ≡ x.reply_cap

pub sched_unblock-Unblocked :
    (k : Kernel) (t : ℕ) → Unblocked (k.tasks t) ((sched_unblock k t).tasks t)
unfolding sched_unblock
sched_unblock-Unblocked k t =
    let l = leave_queue-Same k t (k.tasks t).wait_port t in
    rw (==_refl t) (record {
      waits = refl;
      holder = l.holder;
      held_at = l.held_at;
      cap = leave_queue_cap k t (k.tasks t).wait_port t;
    })

pub sched_unblock-Unnamed : (k : Kernel) (t c : ℕ) → Unnamed k c → Unnamed (sched_unblock k t) c
unfolding sched_unblock
sched_unblock-Unnamed k t c u =
    let left = Unnamed-Same (leave_queue-Same k t (k.tasks t).wait_port c) u in
    Unnamed-on_task _ t unblocked c (Unnamed-Same (Same-calls _ (leave_sleep t) c) left)
      (left.caps t)

-- TaskAbortWait likewise.
pub abort_wait-Same : (k : Kernel) (t err d : ℕ) → (t == d) ≡ false → Same k (abort_wait k t err) d
unfolding abort_wait
abort_wait-Same k t err d e =
    let k1 = on_task (set_r0 k t err) t no_pending in
    Same-trans
      (Same-trans (Same-other k t (with_r0 err) d e refl)
        (Same-other (set_r0 k t err) t no_pending d e refl))
      (Same-trans (sched_unblock-Same k1 t d e) (Same-calls _ (sched_add t) d))

abort_fields : (k : Kernel) (t err : ℕ) → Unblocked (k.tasks t) ((abort_wait k t err).tasks t)
unfolding abort_wait
abort_fields k t err =
    let k1 = on_task (set_r0 k t err) t no_pending in
    let u = sched_unblock-Unblocked k1 t in
    record {
      waits = u.waits;
      holder = u.holder ∙ rw (==_refl t);
      held_at = u.held_at ∙ rw (==_refl t);
      cap = u.cap ∙ rw (==_refl t);
    }

-- The task itself is in no call afterwards, if nothing names it and it is not served or held.
pub abort_wait-nowhere :
    (k : Kernel) (t err : ℕ)
    → Unnamed k t
    → (k.tasks t).reply_holder ≡ none
    → (k.tasks t).held_port ≡ none
    → IsAt (abort_wait k t err) t nowhere
unfolding abort_wait
abort_wait-nowhere k t err u h g =
    let k0 = set_r0 k t err in
    let u0 = Unnamed-on_task k t (with_r0 err) t u (u.caps t) in
    let u1 = Unnamed-on_task k0 t no_pending t u0 (u0.caps t) in
    let u2 = sched_unblock-Unnamed (on_task k0 t no_pending) t t u1 in
    let f = abort_fields k t err in
    nowhere-IsAt _ t (Unnamed-Same (Same-calls _ (sched_add t) t) u2) f.waits (f.holder ∙ h)
      (f.held_at ∙ g)

detach_from-Same : (k : Kernel) (t : ℕ) (o : Option ℕ) (d : ℕ) → Same k (detach_from k t o) d
unfolding detach_from
detach_from-Same k t none d = Same-self k d
detach_from-Same k t (some p) d =
    Same-trans (Same-queue k p (drop_server t) d refl refl)
      (Same-quiet (on_port k p (drop_server t)) t not_serving plain d refl)

-- A server that forgets its reply capability leaves the callers that it does not serve.
pub clear_reply_cap-Same :
    (k : Kernel) (t d : ℕ) → names (k.tasks t).reply_cap d ≡ false → Same k (clear_reply_cap k t) d
unfolding clear_reply_cap detach_serving
clear_reply_cap-Same k t d h =
    let k1 = on_task k t (with_reply_cap none) in
    Same-trans (Same-quiet k t (with_reply_cap none) plain d (sym h)) (
      Same-trans (detach_from-Same k1 t (k1.tasks t).serving_port d)
        (Same-calls _ (recompute_priority t) d))
