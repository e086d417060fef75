-- ===== src/Ipc/Links/Parts.antt =====
-- What takes a caller out of its place: a server that forgets it, a table of held calls that drops
-- it, and a sender queue that it leaves.
use zuzu.Base.{
  ℕ, ◌≡◌, ◌≢◌, refl, sym, ap, ◌∙◌, true, false, Option, none, some, arith, ◌==◌, inl, inr,
  Bool-cases, ==_refl,
}
use mathlib.Core.Path.{subst}
use zuzu.Sched.Tasks.{count, count-erase_self, count-erase_other}
use zuzu.Ipc.Calls.Defs.{
  HeldCall, Task, Kernel, names, on_task, on_port, recompute_priority, not_serving, with_reply_cap,
  drop_sender, drop_server, without_caller, drop_caller,
}
use zuzu.Ipc.Calls.Waits.{detach_from, detach_serving, clear_reply_cap, drop_held}
use zuzu.Ipc.Links.Place.{in_queue, with_server, on_hold, call_in, held_call, IsAt, Same}
use zuzu.Ipc.Links.Frames.{Quiet, plain, Same-calls, Same-port, Same-queue}
use zuzu.Ipc.Links.Ends.{Unnamed, Unnamed-Same, Unnamed-on_task}

-- A pointer names one task alone.
pub names-other : (o : Option ℕ) (c d : ℕ) → names o c ≡ true → (c == d) ≡ false → names o d ≡ false
names-other none c d h e = refl
names-other (some x) c d h e = ground arith

pub names-some : (o : Option ℕ) (c : ℕ) → names o c ≡ true → o ≡ some c
names-some none c h = absurd (cc)
names-some (some x) c h = let e : x ≡ c = ground arith in ap some e

Quiet-self : (x : Task) → Quiet x x
Quiet-self x = plain

Quiet-on :
    (k : Kernel) (t : ℕ) (f : Task → Task) (d : ℕ)
    → Quiet (k.tasks t) (f (k.tasks t))
    → Quiet (k.tasks d) ((on_task k t f).tasks d)
Quiet-on k t f d q = elim (Bool-cases (t == d)) [
  | inl same ↦
      let z : t ≡ d = ground arith in rw same (subst (λ u. Quiet (k.tasks u) (f (k.tasks t))) z q)
  | inr other ↦ rw other (Quiet-self (k.tasks d))
]

Quiet-trans : {x y z : Task} → Quiet x y → Quiet y z → Quiet x z
Quiet-trans a b = record {
  waits = b.waits ∙ a.waits;
  holder = b.holder ∙ a.holder;
  held_at = b.held_at ∙ a.held_at;
  slot = b.slot ∙ a.slot;
  tid = b.tid ∙ a.tid;
  lives = λ h. b.lives (a.lives h);
  blocked_at = λ h. b.blocked_at (a.waits ∙ h) ∙ a.blocked_at h;
  pending = λ h. b.pending (a.waits ∙ h) ∙ a.pending h;
  storage = λ h. b.storage (a.waits ∙ h) ∙ a.storage h;
}

detach_from-Quiet :
    (k : Kernel) (t : ℕ) (o : Option ℕ) (d : ℕ) → Quiet (k.tasks d) ((detach_from k t o).tasks d)
unfolding detach_from
detach_from-Quiet k t none d = Quiet-self (k.tasks d)
detach_from-Quiet k t (some p) d = Quiet-on (on_port k p (drop_server t)) t not_serving d plain

-- TaskClearReplyCap writes no field that a place is about, but the reply capability.
pub clear_reply_cap-Quiet :
    (k : Kernel) (t d : ℕ) → Quiet (k.tasks d) ((clear_reply_cap k t).tasks d)
unfolding clear_reply_cap detach_serving
clear_reply_cap-Quiet k t d =
    let k1 = on_task k t (with_reply_cap none) in
    Quiet-trans (Quiet-on k t (with_reply_cap none) d plain)
      (detach_from-Quiet k1 t (k1.tasks t).serving_port d)

detach_from-Unnamed :
    (k : Kernel) (t : ℕ) (o : Option ℕ) (c : ℕ) → Unnamed k c → Unnamed (detach_from k t o) c
unfolding detach_from
detach_from-Unnamed k t none c u = u
detach_from-Unnamed k t (some p) c u =
    let u1 = Unnamed-Same (Same-queue k p (drop_server t) c refl refl) u in
    Unnamed-on_task (on_port k p (drop_server t)) t not_serving c u1 (u1.caps t)

-- The caller that a server forgets is named no more.
pub clear_reply_cap-Unnamed :
    (k : Kernel) (s c : ℕ) → IsAt k c (with_server s) → Unnamed (clear_reply_cap k s) c
unfolding clear_reply_cap detach_serving
clear_reply_cap-Unnamed k s c a =
    let k1 = on_task k s (with_reply_cap none) in
    let u : Unnamed k1 c = record {
      queue = a.queue;
      caps = λ t. elim (Bool-cases (s == t)) [
        | inl same ↦ rw same
        | inr other ↦ rw other (a.caps t ∙ other)
      ];
      calls_held = a.calls_held;
    } in
    Unnamed-Same (Same-calls _ (recompute_priority s) c)
      (detach_from-Unnamed k1 s (k1.tasks s).serving_port c u)

dropped_other :
    (h : Option (ℕ → HeldCall)) (slot i d : ℕ)
    → names (call_in h slot).caller d ≡ false
    → names (call_in (without_caller h slot) i).caller d ≡ names (call_in h i).caller d
dropped_other none slot i d e = refl
dropped_other (some h) slot i d e = elim (Bool-cases (slot == i)) [
  | inl same ↦ let z : i ≡ slot = ground arith in rw same (rw z (sym e))
  | inr other ↦ rw other
]

dropped_tid :
    (h : Option (ℕ → HeldCall)) (slot i : ℕ)
    → (call_in (without_caller h slot) i).caller_tid ≡ (call_in h i).caller_tid
dropped_tid none slot i = refl
dropped_tid (some h) slot i = elim (Bool-cases (slot == i)) [
  | inl same ↦ let z : i ≡ slot = ground arith in rw same (rw z)
  | inr other ↦ rw other
]

-- The callers that are not in the slot that is emptied stay where they are.
pub drop_held-Same :
    (k : Kernel) (p slot d : ℕ)
    → names (held_call k p slot).caller d ≡ false
    → Same k (drop_held k p slot) d
unfolding drop_held
drop_held-Same k p slot d e =
    Same-port k p (drop_caller slot) d refl (λ i. dropped_other (k.ports p).held slot i d e)
      (λ i h. dropped_tid (k.ports p).held slot i)

dropped_own :
    (h : Option (ℕ → HeldCall)) (slot i c : ℕ)
    → ((j : ℕ) → names (call_in h j).caller c ≡ (slot == j))
    → names (call_in (without_caller h slot) i).caller c ≡ false
dropped_own none slot i c e = refl
dropped_own (some h) slot i c e = elim (Bool-cases (slot == i)) [
  | inl same ↦ rw same
  | inr other ↦ rw other (e i ∙ other)
]

-- The caller in that slot is named no more.
pub drop_held-Unnamed :
    (k : Kernel) (p slot c : ℕ) → IsAt k c (on_hold p slot) → Unnamed (drop_held k p slot) c
unfolding drop_held
drop_held-Unnamed k p slot c a = record {
  queue = λ q. elim (Bool-cases (p == q)) [
    | inl same ↦ rw same (a.queue p)
    | inr other ↦ rw other (a.queue q)
  ];
  caps = a.caps;
  calls_held = λ q i. elim (Bool-cases (p == q)) [
    | inl same ↦
        rw same (dropped_own (k.ports p).held slot i c (λ j. a.calls_held p j ∙ rw (==_refl p)))
    | inr other ↦ rw other (a.calls_held q i ∙ rw other)
  ];
}

pub drop_sender-Same :
    (k : Kernel) (p t d : ℕ) → (t == d) ≡ false → Same k (on_port k p (drop_sender t)) d
drop_sender-Same k p t d e =
    let ne : t ≢ d = ground arith in
    Same-queue k p (drop_sender t) d (count-erase_other t d (k.ports p).sender_queue ne) refl

-- A caller that leaves the sender queue that it is in is named no more.
pub drop_sender-Unnamed :
    (k : Kernel) (p c : ℕ) → IsAt k c (in_queue p) → Unnamed (on_port k p (drop_sender c)) c
drop_sender-Unnamed k p c a = record {
  queue = λ q. elim (Bool-cases (p == q)) [
    | inl same ↦
        let n : count c (k.ports p).sender_queue ≡ 1 = a.queue p ∙ rw (==_refl p) in
        rw same (count-erase_self c (k.ports p).sender_queue ∙ rw n)
    | inr other ↦ rw other (a.queue q ∙ rw other)
  ];
  caps = a.caps;
  calls_held = λ q i. elim (Bool-cases (p == q)) [
    | inl same ↦ rw same (a.calls_held p i)
    | inr other ↦ rw other (a.calls_held q i)
  ];
}
