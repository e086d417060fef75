-- ===== src/Ipc/Links/Cancel.antt =====
-- A call that is withdrawn, by TaskCancelCall or by a timeout, leaves its caller in no call and every
-- other caller where it is.
use zuzu.Base.{
  ℕ, ◌≡◌, refl, sym, ◌∙◌, Bool, true, false, Option, none, some, arith, ◌==◌, if◌then◌else◌, inl,
  inr, Bool-cases, ==_refl, is_some,
}
use mathlib.Core.Path.{subst}
use zuzu.Sched.Tasks.{count, count-erase_self}
use zuzu.Ipc.Calls.Defs.{
  Task, Kernel, Effect, names, on_task, on_port, calls, boost_servers, no_pending, with_holder,
  not_held, drop_sender, with_r0, set_r0, err_timeout, sched_add,
}
use zuzu.Ipc.Calls.Waits.{
  sched_unblock, clear_reply_cap, drop_held, withdraw, forget_holder, cancel_call, timed_out,
  wake_timed_out,
}
use zuzu.Ipc.Links.Place.{
  Where, nowhere, in_queue, with_server, on_hold, calling, server_of, hold_port_of, held_call, IsAt,
  IsAt-Same, Same, Same-self, Same-trans, Place, Place-Same, IsLinked,
}
use zuzu.Ipc.Links.Frames.{Same-calls, Same-other, Same-queue}
use zuzu.Ipc.Links.Ends.{
  Unnamed, Unnamed-Same, Unnamed-on_task, Unnamed-nowhere, nowhere-IsAt, sched_unblock-Same,
  sched_unblock-Unnamed, sched_unblock-Unblocked,
}
use zuzu.Ipc.Links.Parts.{
  names-other, clear_reply_cap-Quiet, clear_reply_cap-Unnamed, drop_held-Same, drop_held-Unnamed,
  drop_sender-Same, drop_sender-Unnamed,
}
use zuzu.Ipc.Links.Ends.{clear_reply_cap-Same}

-- From `k` to `k'` the task `t` is taken out of its call, and the other callers stay.
pub record Freed (k k' : Kernel) (t : ℕ) : Type 0 where
  pub others : (d : ℕ) → (t == d) ≡ false → Same k k' d
  pub unnamed : Unnamed k' t
  pub holder : (k'.tasks t).reply_holder ≡ none
  pub held_at : (k'.tasks t).held_port ≡ none

pub Freed-calls : {k k' : Kernel} {t : ℕ} (e : Effect) → Freed k k' t → Freed k (calls k' e) t
Freed-calls {k'} {t} e f = record {
  others = λ d h. Same-trans (f.others d h) (Same-calls k' e d);
  unnamed = Unnamed-Same (Same-calls k' e t) f.unnamed;
  holder = f.holder;
  held_at = f.held_at;
}

-- A later write to the task itself.
pub Freed-on_task :
    {k k' : Kernel} {t : ℕ} (f : Task → Task)
    → (f (k'.tasks t)).reply_cap ≡ (k'.tasks t).reply_cap
    → (f (k'.tasks t)).reply_holder ≡ none
    → (f (k'.tasks t)).held_port ≡ none
    → Freed k k' t
    → Freed k (on_task k' t f) t
Freed-on_task {k'} {t} f cap h g freed = record {
  others = λ d e. Same-trans (freed.others d e) (Same-other k' t f d e (rw cap));
  unnamed = Unnamed-on_task k' t f t freed.unnamed (rw cap (freed.unnamed.caps t));
  holder = rw (==_refl t) h;
  held_at = rw (==_refl t) g;
}

freed_queue :
    (k : Kernel) (t p : ℕ) → IsAt k t (in_queue p) → Freed k (on_port k p (drop_sender t)) t
freed_queue k t p a = record {
  others = λ d e. drop_sender-Same k p t d e;
  unnamed = drop_sender-Unnamed k p t a;
  holder = a.holder;
  held_at = a.held_at;
}

pub freed_hold :
    (k : Kernel) (t p i : ℕ)
    → IsAt k t (on_hold p i)
    → Freed k (on_task (drop_held k p i) t not_held) t
unfolding drop_held
freed_hold k t p i a =
    let in_slot : names (held_call k p i).caller t ≡ true =
      a.calls_held p i ∙ rw (==_refl p, ==_refl i) in
    let u = drop_held-Unnamed k p i t a in
    record {
      others = λ d e.
          Same-trans (drop_held-Same k p i d (names-other (held_call k p i).caller t d in_slot e))
            (Same-other (drop_held k p i) t not_held d e refl);
      unnamed = Unnamed-on_task (drop_held k p i) t not_held t u (u.caps t);
      holder = rw (==_refl t) a.holder;
      held_at = rw (==_refl t);
    }

-- `held_slot` names the slot that holds the caller.
freed_at :
    (k : Kernel) (t p i : ℕ)
    → IsAt k t (on_hold p i)
    → Freed k (on_task (drop_held k p (k.tasks t).held_slot) t not_held) t
freed_at k t p i a =
    subst (λ n. Freed k (on_task (drop_held k p n) t not_held) t) (sym a.local)
      (freed_hold k t p i a)

-- A server that forgets its caller.
pub freed_server :
    (k : Kernel) (t s : ℕ)
    → IsAt k t (with_server s)
    → Freed k (on_task (clear_reply_cap k s) t (with_holder none)) t
freed_server k t s a =
    let k1 = clear_reply_cap k s in
    let served : names (k.tasks s).reply_cap t ≡ true = a.caps s ∙ ==_refl s in
    let u = clear_reply_cap-Unnamed k s t a in
    record {
      others = λ d e.
          Same-trans (clear_reply_cap-Same k s d (names-other (k.tasks s).reply_cap t d served e))
            (Same-other k1 t (with_holder none) d e refl);
      unnamed = Unnamed-on_task k1 t (with_holder none) t u (u.caps t);
      holder = rw (==_refl t);
      held_at = rw (==_refl t) ((clear_reply_cap-Quiet k s t).held_at ∙ a.held_at);
    }

-- Out of the place `w`, by the fields that TaskCancelCall reads.
freed_from :
    (k : Kernel) (t : ℕ) (w : Where) (waits_on : Option ℕ)
    → IsAt k t w
    → calling w ≡ true
    → waits_on ≡ (k.tasks t).blocked_port
    → Freed k
        (forget_holder (withdraw k t (hold_port_of w) waits_on) t true (server_of w) waits_on)
        t
unfolding withdraw forget_holder
freed_from k t nowhere b a c e = absurd (cc)
freed_from k t (in_queue p) b a c e =
    subst (λ o. Freed k (forget_holder (withdraw k t none o) t true none o) t) (sym (e ∙ a.local))
      (Freed-calls (boost_servers p) (freed_queue k t p a))
freed_from k t (with_server s) none a c e = freed_server k t s a
freed_from k t (with_server s) (some p) a c e =
    let n : count t (k.ports p).sender_queue ≡ 0 = a.queue p in
    let gone = count-erase_self t (k.ports p).sender_queue ∙ rw n in
    let same = Same-queue k p (drop_sender t) t (gone ∙ sym n) refl in
    let f = freed_server (on_port k p (drop_sender t)) t s (IsAt-Same same a) in
    record {
      others = λ d o. Same-trans (drop_sender-Same k p t d o) (f.others d o);
      unnamed = f.unnamed;
      holder = f.holder;
      held_at = f.held_at;
    }
freed_from k t (on_hold p i) none a c e = freed_at k t p i a
freed_from k t (on_hold p i) (some q) a c e = Freed-calls (boost_servers q) (freed_at k t p i a)

-- TaskCancelCall takes a task that is in a call out of it, and leaves the other callers.
pub cancel_call-Freed :
    (k : Kernel) (t : ℕ) (w : Where) → IsAt k t w → calling w ≡ true → Freed k (cancel_call k t) t
unfolding cancel_call
cancel_call-Freed k t w a c =
    let b = (k.tasks t).blocked_port in
    let cancelled = λ (pending : Bool) (holder held : Option ℕ).
      on_task (forget_holder (withdraw k t held b) t pending holder b) t no_pending in
    let freed = freed_from k t w b a c refl in
    let done = Freed-on_task no_pending refl freed.holder freed.held_at freed in
    subst (λ o. Freed k (cancelled (is_some o) (k.tasks t).reply_holder (k.tasks t).held_port) t)
      (sym (a.object c).pending)
      (subst (λ o. Freed k (cancelled true o (k.tasks t).held_port) t) (sym a.holder)
        (subst (λ o. Freed k (cancelled true (server_of w) o) t) (sym a.held_at) done))

-- A task that is freed is in no call once its wait is over.
pub Freed-sched_unblock :
    {k k' : Kernel} {t : ℕ}
    → Freed k k' t
    → IsAt (sched_unblock k' t) t nowhere
      × ((d : ℕ) → (t == d) ≡ false → Same k (sched_unblock k' t) d)
Freed-sched_unblock {k'} {t} f =
    let u = sched_unblock-Unblocked k' t in
    (
      nowhere-IsAt _ t (sched_unblock-Unnamed k' t t f.unnamed) u.waits (u.holder ∙ f.holder)
          (u.held_at ∙ f.held_at),
      λ d e. Same-trans (f.others d e) (sched_unblock-Same k' t d e),
    )

-- All callers have a place if the one that moves has one and the others stay.
pub moved-IsLinked :
    {k k' : Kernel} (t : ℕ)
    → IsLinked k
    → Place k' t
    → ((d : ℕ) → (t == d) ≡ false → Same k k' d)
    → IsLinked k'
moved-IsLinked {k'} t l here others d = elim (Bool-cases (t == d)) [
  | inl same ↦ let z : t ≡ d = ground arith in subst (Place k') z here
  | inr other ↦ Place-Same (others d other) (l d)
]

-- A state in which nothing moves.
pub same-IsLinked : {k k' : Kernel} → ((d : ℕ) → Same k k' d) → IsLinked k → IsLinked k'
same-IsLinked s l d = Place-Same (s d) (l d)

woken_linked :
    (k k' : Kernel) (t : ℕ)
    → IsLinked k
    → Freed k k' t
    → IsLinked (calls (sched_unblock (set_r0 k' t err_timeout) t) (sched_add t))
woken_linked k k' t l f =
    let f0 = Freed-on_task (with_r0 err_timeout) refl f.holder f.held_at f in
    let done = Freed-sched_unblock f0 in
    let k1 = sched_unblock (set_r0 k' t err_timeout) t in
    moved-IsLinked t l
      (record { place = nowhere; at = IsAt-Same (Same-calls k1 (sched_add t) t) done.0 })
      (λ d e. Same-trans (done.1 d e) (Same-calls k1 (sched_add t) d))

-- A place whose task does not wait is nowhere.
pub resting :
    {k : Kernel} {t : ℕ} (w : Where) → IsAt k t w → (k.tasks t).waiting ≡ false → IsAt k t nowhere
resting nowhere a h = a
resting (in_queue p) a h = absurd (cc (a.waits))
resting (with_server s) a h = absurd (cc (a.waits))
resting (on_hold p i) a h = absurd (cc (a.waits))

pub active :
    {k : Kernel} {t : ℕ} (w : Where) → IsAt k t w → (k.tasks t).waiting ≡ true → calling w ≡ true
active w a h = sym a.waits ∙ h

-- A task that is in no call counts as freed.
pub Freed-nowhere : {k : Kernel} {t : ℕ} → IsAt k t nowhere → Freed k k t
Freed-nowhere {k} a = record {
  others = λ d e. Same-self k d;
  unnamed = Unnamed-nowhere a;
  holder = a.holder;
  held_at = a.held_at;
}

-- A timeout takes its task out of a call, if it is in one, and moves no other caller.
pub wake_timed_out-IsLinked : (k : Kernel) (t : ℕ) → IsLinked k → IsLinked (wake_timed_out k t)
unfolding wake_timed_out
wake_timed_out-IsLinked k t l =
    let call = on_task (cancel_call k t) t timed_out in
    let woken = λ (k' : Kernel). calls (sched_unblock (set_r0 k' t err_timeout) t) (sched_add t) in
    elim (Bool-cases (k.tasks t).waiting) [
      | inl waits ↦
          let f = cancel_call-Freed k t (l t).place (l t).at (active _ (l t).at waits) in
          subst (λ b. IsLinked (woken (if b then call else k))) (sym waits)
            (woken_linked k _ t l (Freed-on_task timed_out refl f.holder f.held_at f))
      | inr rests ↦
          subst (λ b. IsLinked (woken (if b then call else k))) (sym rests)
            (woken_linked k k t l (Freed-nowhere (resting _ (l t).at rests)))
    ]
