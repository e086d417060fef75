-- ===== src/Ipc/Links/Queue.antt =====
-- The sender queue of a port: what stands in it is a caller that waits there.
use zuzu.Base.{
  ℕ, suc, ◌<◌, ◌≡◌, refl, sym, ◌∙◌, false, none, List, ◌∷◌, arith, ◌==◌, inl, inr, Bool-cases,
  ==_refl,
}
use mathlib.Core.Path.{subst}
use zuzu.Sched.Defs.{wait_queue_add, is_empty}
use zuzu.Sched.Tasks.{count}
use zuzu.Ipc.Calls.Defs.{
  Kernel, on_task, on_port, calls, set_r0, with_r0, with_senders, notify, arm_timeout, schedule,
  with_receivers, timeout_poll, err_timeout,
}
use zuzu.Ipc.Calls.Waits.{waits_at, block_on}
use zuzu.Ipc.Calls.Message.{notify_pending, pop_sender}
use zuzu.Ipc.Links.Place.{
  Where, nowhere, in_queue, with_server, on_hold, IsAt, Same, Same-self, Same-trans, IsLinked,
}
use zuzu.Ipc.Links.Frames.{plain, plain_blocked, Same-calls, Same-quiet, Same-queue}
use zuzu.Ipc.Links.Deliver.{InTransit}

-- A write of r0 moves nobody.
pub set_r0-Same : (k : Kernel) (t v d : ℕ) → Same k (set_r0 k t v) d
set_r0-Same k t v d = Same-quiet k t (with_r0 v) plain d refl

pub block_on-Same : (k : Kernel) (t p timeout d : ℕ) → Same k (block_on k t p timeout) d
unfolding block_on
block_on-Same k t p timeout d =
    let receivers = wait_queue_add (λ u. (k.tasks u).priority) (k.ports p).receiver_queue t in
    let k1 = on_port k p (with_receivers receivers) in
    let k2 = on_task k1 t (waits_at p) in
    let k3 = calls k2 (arm_timeout t timeout) in
    elim (Bool-cases (timeout == timeout_poll)) [
      | inl poll ↦ rw poll (set_r0-Same k t err_timeout d)
      | inr waits ↦ rw waits (
          Same-trans (Same-queue k p (with_receivers receivers) d refl refl) (
            Same-trans (Same-quiet k1 t (waits_at p) plain_blocked d refl)
              (Same-trans (Same-calls k2 (arm_timeout t timeout) d) (Same-calls k3 schedule d))))
    ]

pub notify_pending-Same : (k : Kernel) (p d : ℕ) → Same k (notify_pending k p) d
unfolding notify_pending
notify_pending-Same k p d = elim (Bool-cases (is_empty (k.ports p).sender_queue)) [
  | inl empty ↦ rw empty (Same-self k d)
  | inr waiting ↦ rw waiting (Same-calls k (notify p) d)
]

-- A task that stands in a sender queue is at that place.
pub queued_place :
    {k : Kernel} {c : ℕ} (w : Where) (p : ℕ)
    → IsAt k c w
    → 0 < count c (k.ports p).sender_queue
    → IsAt k c (in_queue p)
queued_place nowhere p a h = absurd (omega (arith, a.queue p))
queued_place {k} {c} (in_queue q) p a h = elim (Bool-cases (q == p)) [
  | inl same ↦ let z : q ≡ p = ground arith in subst (λ r. IsAt k c (in_queue r)) z a
  | inr other ↦ absurd (ground (arith, a.queue p))
]
queued_place (with_server s) p a h = absurd (omega (arith, a.queue p))
queued_place (on_hold q i) p a h = absurd (omega (arith, a.queue p))

-- The queue of the port `p` holds the callers of `q`, each as often.
abbrev pub Holds : Kernel → ℕ → List ℕ → Type 0
Holds k p q = (d : ℕ) → count d (k.ports p).sender_queue ≡ count d q

-- The first caller of a queue, taken off it.
pub record Popped (k k' : Kernel) (c : ℕ) : Type 0 where
  pub transit : InTransit k' c
  pub holder : (k'.tasks c).reply_holder ≡ none
  pub others : (d : ℕ) → (c == d) ≡ false → Same k k' d

pub pop_sender-Popped :
    (k : Kernel) (p c : ℕ) (rest : List ℕ)
    → IsLinked k
    → Holds k p (c ∷ rest)
    → Popped k (pop_sender k p rest) c
pop_sender-Popped k p c rest l holds =
    let first : count c (k.ports p).sender_queue ≡ suc (count c rest) = holds c ∙ rw (==_refl c) in
    let a = queued_place (l c).place p (l c).at (omega (arith, first)) in
    let once : count c (k.ports p).sender_queue ≡ 1 = a.queue p ∙ rw (==_refl p) in
    record {
      transit = record {
        waits = a.waits;
        held_at = a.held_at;
        object =
            let o = a.object refl in
            record { pending = o.pending; task = o.task; tid = o.tid; alive = o.alive };
        unnamed = record {
          queue = λ q. elim (Bool-cases (p == q)) [
            | inl same ↦ rw same (omega (arith, first, once))
            | inr other ↦ rw other (a.queue q ∙ rw other)
          ];
          caps = a.caps;
          calls_held = λ q i. elim (Bool-cases (p == q)) [
            | inl same ↦ rw same (a.calls_held p i)
            | inr other ↦ rw other (a.calls_held q i)
          ];
        };
      };
      holder = a.holder;
      others = λ d e. Same-queue k p (with_senders rest) d (sym (holds d ∙ count_tail d e)) refl;
    }
  where
    count_tail : (d : ℕ) → (c == d) ≡ false → count d (c ∷ rest) ≡ count d rest
    count_tail d e = let f : (d == c) ≡ false = ground arith in rw f
