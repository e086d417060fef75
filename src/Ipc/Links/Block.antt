-- ===== src/Ipc/Links/Block.antt =====
-- CallBlockAsSender puts its caller into the queue of the port, and moves no other caller.
use zuzu.Base.{
  ℕ, ◌+◌, ◌≡◌, refl, ◌∙◌, false, Option, none, some, List, [], ◌∷◌, arith, ◌==◌, ltb, inl, inr,
  Bool-cases, ==_refl,
}
use zuzu.Sched.Defs.{put_back, walk, wait_queue_add}
use zuzu.Sched.Tasks.{count}
use zuzu.Ipc.Calls.Defs.{
  Kernel, on_task, on_port, calls, with_senders, boost_servers, arm_timeout, schedule,
}
use zuzu.Ipc.Calls.Message.{notify_pending, calls_on, with_message, call_block_as_sender}
use zuzu.Ipc.Links.Place.{in_queue, IsAt, IsAt-Same, Same-trans, IsLinked}
use zuzu.Ipc.Links.Frames.{plain, Same-calls, Same-other, Same-quiet, Same-queue}
use zuzu.Ipc.Links.Ends.{Unnamed, Unnamed-on_task}
use zuzu.Ipc.Links.Cancel.{moved-IsLinked}
use zuzu.Ipc.Links.Deliver.{InTransit, InTransit-Same}
use zuzu.Ipc.Links.Queue.{notify_pending-Same}

-- A task that enters a wait queue stands in it once more.
module _ (priority : ℕ → ℕ) where
  put_back-count :
      (d : ℕ) (xs ys : List ℕ) → count d (put_back priority xs ys) ≡ count d xs + count d ys
  unfolding put_back
  put_back-count d [] ys = omega arith
  put_back-count d (x ∷ xs) ys = ground (arith, put_back-count d xs (x ∷ ys))

  walk-count :
      (d t : ℕ) (xs ys : List ℕ)
      → count d (walk priority t xs ys) ≡ count d (t ∷ []) + (count d xs + count d ys)
  unfolding walk
  walk-count d t [] ys = ground arith
  walk-count d t (x ∷ xs) ys = elim (Bool-cases (ltb (priority x) (priority t))) [
    | inl lower ↦ rw lower (ground (arith, walk-count d t xs (x ∷ ys)))
    | inr higher ↦ rw higher (ground (arith, put_back-count d (x ∷ xs) (t ∷ ys)))
  ]

  pub wait_queue_add-count :
      (d t : ℕ) (q : List ℕ) → count d (wait_queue_add priority q t) ≡ count d (t ∷ []) + count d q
  unfolding wait_queue_add
  wait_queue_add-count d t q =
      ground (arith, walk-count d t (put_back priority q []) [], put_back-count d q [])

-- A task whose reply object names itself, ready to call.
pub record Ready (k : Kernel) (c : ℕ) : Type 0 where
  pub unnamed : Unnamed k c
  pub holder : (k.tasks c).reply_holder ≡ none
  pub held_at : (k.tasks c).held_port ≡ none
  pub task : (k.tasks c).reply_cap_storage.caller_task ≡ some c
  pub tid : (k.tasks c).reply_cap_storage.caller_tid ≡ (k.tasks c).tid

-- The call leaves the caller at `p`, on its way to a server.
pub calls_on-InTransit :
    (k : Kernel) (c p : ℕ) → Ready k c → InTransit (on_task k c (calls_on p c)) c
calls_on-InTransit k c p r = record {
  waits = rw (==_refl c);
  held_at = rw (==_refl c) r.held_at;
  object = record {
    pending = rw (==_refl c);
    task = rw (==_refl c) r.task;
    tid = rw (==_refl c) r.tid;
    alive = rw (==_refl c);
  };
  unnamed = Unnamed-on_task k c (calls_on p c) c r.unnamed (r.unnamed.caps c);
}

-- CallBlockAsSender puts its caller into the queue of the port.
pub block-IsLinked :
    (k : Kernel) (c p xlen : ℕ) (grant : Option ℕ) (timeout : ℕ)
    → IsLinked k
    → Ready k c
    → IsLinked (call_block_as_sender k c p c xlen grant timeout)
unfolding call_block_as_sender
block-IsLinked k c p xlen grant timeout l r =
    let priority = λ (u : ℕ). (k.tasks u).priority in
    let senders = wait_queue_add priority (k.ports p).sender_queue c in
    let k1 = on_task k c (calls_on p c) in
    let k2 = on_task k1 c (with_message xlen grant) in
    let k3 = on_port k2 p (with_senders senders) in
    let k4 = calls (calls k3 (arm_timeout c timeout)) (boost_servers p) in
    let last = λ (d : ℕ).
      Same-trans
        (Same-trans (Same-calls k3 (arm_timeout c timeout) d) (Same-calls _ (boost_servers p) d))
        (Same-trans (notify_pending-Same k4 p d) (Same-calls (notify_pending k4 p) schedule d)) in
    let t =
      InTransit-Same (Same-quiet k1 c (with_message xlen grant) plain c refl)
        (calls_on-InTransit k c p r) in
    let at : IsAt k3 c (in_queue p) = record {
      waits = t.waits;
      holder = rw (==_refl c) r.holder;
      held_at = t.held_at;
      local = rw (==_refl c);
      object = λ h. record {
        pending = t.object.pending;
        task = t.object.task;
        tid = t.object.tid;
        alive = t.object.alive;
      };
      queue = λ q. elim (Bool-cases (p == q)) [
        | inl same ↦ rw same (
            wait_queue_add-count priority c c (k.ports p).sender_queue
            ∙ rw (==_refl c, r.unnamed.queue p))
        | inr other ↦ rw other (t.unnamed.queue q)
      ];
      caps = t.unnamed.caps;
      calls_held = λ q i. elim (Bool-cases (p == q)) [
        | inl same ↦ rw same (t.unnamed.calls_held p i)
        | inr other ↦ rw other (t.unnamed.calls_held q i)
      ];
      tids = λ q i h. absurd (cc);
    } in
    moved-IsLinked c l (record { place = in_queue p; at = IsAt-Same (last c) at })
      (λ d e.
        Same-trans
          (Same-trans (Same-other k c (calls_on p c) d e refl)
            (Same-quiet k1 c (with_message xlen grant) plain d refl))
          (Same-trans
            (Same-queue k2 p (with_senders senders) d
              (wait_queue_add-count priority d c (k.ports p).sender_queue
                ∙ (let f : (d == c) ≡ false = ground arith in rw f (omega arith)))
              refl)
            (last d)))
