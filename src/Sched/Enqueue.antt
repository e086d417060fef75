-- ===== src/Sched/Enqueue.antt =====
-- SchedEnqueue, SchedAdd and SchedAddFront against the order of the ready tasks.
use zuzu.Base.{
  ℕ, suc, ◌<◌, ◌≡◌, refl, ◌⊎◌, inl, inr, Bool, true, false, Option, none, some, [], ◌∷◌, arith,
  lt→ltb, ◌==◌, if◌then◌else◌, Bool-cases,
}
use zuzu.Sched.Defs.{Sched, priority_levels, run_level, push_task, preempt, enqueue_task, enqueue}
use zuzu.Sched.Ready.{IsReady, push_task-IsReady}
use zuzu.Sched.Order.{ready_order, IsInserted, ready_order-IsInserted}
use zuzu.Sched.Pick.{order}
use mathlib.Core.List.{append_assoc}

-- What SchedEnqueue promises of a task: nothing changes where it may not be queued; else it stands
-- in the order of the ready tasks right before `ready_order s.run_queues k`.
pub data Enqueued (s : Sched) (t k : ℕ) : Sched → Type 0 where
  refused :
      (((s.tasks t).owner_frozen ≡ true)
        ⊎ (((s.tasks t).suspended ≡ true) ⊎ ((s.tasks t).linked ≡ true)))
      → Enqueued s t k s
  added :
      (s' : Sched)
      → (s.tasks t).owner_frozen ≡ false
      → (s.tasks t).suspended ≡ false
      → (s.tasks t).linked ≡ false
      → IsInserted (order s) (order s') t (ready_order s.run_queues k)
      → (s'.tasks t).linked ≡ true
      → ((c : ℕ)
          → s.current ≡ some c
          → (s.tasks c).priority < (s.tasks t).priority
          → s'.do_resched ≡ true)
      → IsReady s'
      → Enqueued s t k s'

preempt-IsReady : (s : Sched) (t : ℕ) (c : Option ℕ) → IsReady s → IsReady (preempt s t c)
unfolding preempt
preempt-IsReady s t none r = r
preempt-IsReady s t (some c) r = record {
  masked = r.masked;
  bounded = r.bounded;
  recorded = r.recorded;
  once = r.once;
}

preempt-queues : (s : Sched) (t : ℕ) (c : Option ℕ) → (preempt s t c).run_queues ≡ s.run_queues
unfolding preempt
preempt-queues s t none = refl
preempt-queues s t (some c) = refl

preempt-tasks : (s : Sched) (t : ℕ) (c : Option ℕ) → (preempt s t c).tasks ≡ s.tasks
unfolding preempt
preempt-tasks s t none = refl
preempt-tasks s t (some c) = refl

preempt-do_resched :
    (s : Sched) (t c : ℕ) (o : Option ℕ)
    → o ≡ some c
    → (s.tasks c).priority < (s.tasks t).priority
    → (preempt s t o).do_resched ≡ true
unfolding preempt
preempt-do_resched s t c none e lt = absurd (cc)
preempt-do_resched s t c (some d) e lt = let same : d ≡ c = ground arith in rw (same, lt→ltb _ _ lt)

run_level-lt : (p : ℕ) → run_level p < priority_levels
run_level-lt p = ground arith

-- The part of the order from level `level` down, with `t` at one end of the level.
module _ (s : Sched) (t : ℕ) (front : Bool) (level : ℕ) where
  abbrev below : ℕ
  below = if front then suc level else level

  pushed-IsInserted :
      level < priority_levels
      → IsInserted (order s) (order (push_task s t front level)) t (ready_order s.run_queues below)
  unfolding push_task ready_order
  pushed-IsInserted lt =
      ready_order-IsInserted s.run_queues priority_levels level t _ _ lt (elim (Bool-cases front) [
        | inl f ↦ rw f (record { upper = []; before = refl; after = refl })
        | inr b ↦ rw b (record {
          upper = s.run_queues level;
          before = refl;
          after = append_assoc (s.run_queues level) (t ∷ []) (ready_order s.run_queues level);
        })
      ])

  push_task-priority :
      (u : ℕ) → ((push_task s t front level).tasks u).priority ≡ (s.tasks u).priority
  unfolding push_task
  push_task-priority u = elim (Bool-cases (t == u)) [
    | inl same ↦ let e : t ≡ u = ground arith in rw (same, e)
    | inr other ↦ rw other
  ]

  push_task-linked : ((push_task s t front level).tasks t).linked ≡ true
  unfolding push_task
  push_task-linked = let same : (t == t) ≡ true = ground arith in rw same

enqueue_at :
    (s : Sched) (t : ℕ) (front : Bool)
    → IsReady s
    → (s.tasks t).owner_frozen ≡ false
    → (s.tasks t).suspended ≡ false
    → (s.tasks t).linked ≡ false
    → Enqueued s t
        (below s t front (run_level (s.tasks t).priority))
        (preempt (push_task s t front (run_level (s.tasks t).priority)) t s.current)
enqueue_at s t front r live free out =
    let level = run_level (s.tasks t).priority in
    let s1 = push_task s t front level in
    let lt = run_level-lt (s.tasks t).priority in
    added _ live free out
      (rw (preempt-queues s1 t s.current) (pushed-IsInserted s t front level lt))
      (rw (preempt-tasks s1 t s.current) (push_task-linked s t front level))
      (λ c e lower.
        preempt-do_resched s1 t c s.current e
          (rw (push_task-priority s t front level c, push_task-priority s t front level t) lower))
      (preempt-IsReady s1 t s.current (push_task-IsReady s t front level r out lt))

-- On a consistent state SchedEnqueue changes nothing for a task whose owner is frozen, that is
-- suspended or that is linked already. Any other task it links into the order in which the queues
-- hold the ready tasks: behind all those of its level and the levels above it, or before those of
-- its level with `front`, and before all those of the levels below; a reschedule is requested where
-- the task outranks the running one, and the state stays consistent. The level is the priority, or
-- the default where that is no level.
pub enqueue-Enqueued :
    (s : Sched) (t : ℕ) (front : Bool)
    → IsReady s
    → Enqueued s t
        (if front then suc (run_level (s.tasks t).priority) else run_level (s.tasks t).priority)
        (enqueue s (some t) front)
unfolding enqueue enqueue_task
enqueue-Enqueued s t front r = elim (Bool-cases (s.tasks t).owner_frozen) [
  | inl f ↦ rw f (refused (inl f))
  | inr nf ↦ elim (Bool-cases (s.tasks t).suspended) [
    | inl u ↦ rw (nf, u) (refused (inr (inl u)))
    | inr nu ↦ elim (Bool-cases (s.tasks t).linked) [
      | inl l ↦ rw (nf, nu, l) (refused (inr (inr l)))
      | inr nl ↦ rw (nf, nu, nl) (enqueue_at s t front r nf nu nl)
    ]
  ]
]
