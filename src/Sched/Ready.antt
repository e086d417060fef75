-- ===== src/Sched/Ready.antt =====
-- The run queues and the ready mask: SchedEnqueue, SchedRemoveRunQueue and SchedAnyCpuTakers.
use zuzu.Base.{
  ℕ, ◌+◌, ◌≤◌, ◌<◌, ◌≡◌, refl, inl, inr, Bool, true, false, not, List, [], ◌∷◌, ◌++◌, arith, ◌==◌,
  if◌then◌else◌, Bool-cases,
}
use zuzu.Base.Bits.{test_bit, test_bit-set_bit}
use zuzu.Sched.Defs.{Sched, priority_levels, is_empty, push_task}
use mathlib.Core.Path.{subst}
use zuzu.Sched.Tasks.{count, count-append}

-- What the static state of sched.c promises: a bit of the mask is set where the queue of its level
-- has a task, and a task stands in one queue at most, the one that it records, once.
pub record IsReady (s : Sched) : Type 0 where
  pub masked : (p : ℕ) → test_bit s.ready_mask p ≡ not (is_empty (s.run_queues p))
  pub bounded : (p : ℕ) → priority_levels ≤ p → s.run_queues p ≡ []
  pub recorded :
      (p t : ℕ)
      → 0 < count t (s.run_queues p)
      → ((s.tasks t).linked ≡ true) × ((s.tasks t).queued_prio ≡ p)
  pub once : (p t : ℕ) → count t (s.run_queues p) ≤ 1

pub absent :
    (s : Sched)
    → IsReady s
    → (t : ℕ) → (s.tasks t).linked ≡ false
    → (p : ℕ) → count t (s.run_queues p) ≡ 0
absent s r t out p = elim (Bool-cases (count t (s.run_queues p) == 0)) [
  | inl z ↦ ground arith
  | inr n ↦ let q = r.recorded p t (ground arith) in absurd (ground (arith, q.0))
]

module _ (s : Sched) (t : ℕ) (front : Bool) (level : ℕ) where
  pushed : List ℕ
  pushed = if front then t ∷ s.run_queues level else s.run_queues level ++ (t ∷ [])

  append-is_empty : (xs : List ℕ) → is_empty (xs ++ (t ∷ [])) ≡ false
  append-is_empty [] = refl
  append-is_empty (x ∷ xs) = refl

  pushed-is_empty : is_empty pushed ≡ false
  unfolding pushed
  pushed-is_empty = elim (Bool-cases front) [
    | inl f ↦ rw f
    | inr b ↦ rw b (append-is_empty (s.run_queues level))
  ]

  count-pushed : (u : ℕ) → count u pushed ≡ (if t == u then 1 else 0) + count u (s.run_queues level)
  unfolding pushed
  count-pushed u = elim (Bool-cases front) [
    | inl f ↦ rw f (ground arith)
    | inr b ↦ rw b (ground (arith, count-append u (s.run_queues level) (t ∷ [])))
  ]

  pub push_task-IsReady :
      IsReady s
      → (s.tasks t).linked ≡ false
      → level < priority_levels
      → IsReady (push_task s t front level)
  unfolding push_task pushed
  push_task-IsReady r out below = record {
    masked = λ p.
        let b = test_bit-set_bit s.ready_mask level p in
        elim (Bool-cases (level == p)) [
          | inl same ↦ rw (b, same, pushed-is_empty)
          | inr other ↦ rw (b, other) (r.masked p)
        ];
    bounded = λ p high. elim (Bool-cases (level == p)) [
      | inl same ↦ absurd (ground arith)
      | inr other ↦ rw other (r.bounded p high)
    ];
    recorded = recorded;
    once = once;
  }
    where
      none_in : (p : ℕ) → count t (s.run_queues p) ≡ 0
      none_in = absent s r t out

      once : (p u : ℕ) → count u ((push_task s t front level).run_queues p) ≤ 1
      once p u = elim (Bool-cases (level == p)) [
        | inl same ↦ rw same (
            let a = count-pushed u in
            let z = none_in level in
            let o = r.once level u in
            elim (Bool-cases (t == u)) [
              | inl e ↦ let e' : u ≡ t = ground arith in rw e' (ground arith)
              | inr n ↦ ground arith
            ])
        | inr other ↦ rw other (r.once p u)
      ]

      recorded :
          (p u : ℕ)
          → 0 < count u ((push_task s t front level).run_queues p)
          → (((push_task s t front level).tasks u).linked ≡ true)
            × (((push_task s t front level).tasks u).queued_prio ≡ p)
      recorded p u in_q = elim (Bool-cases (t == u)) [
        | inl me ↦ elim (Bool-cases (level == p)) [
          | inl same ↦ rw me (refl, ground arith)
          | inr other ↦
              let e : u ≡ t = ground arith in
              let here : 0 < count u (s.run_queues p) = rw other at in_q in
              let z = none_in p in
              let here' = subst (λ v. 0 < count v (s.run_queues p)) e here in absurd (omega arith)
        ]
        | inr not_me ↦
            let there : 0 < count u (s.run_queues p) = elim (Bool-cases (level == p)) [
              | inl same ↦
                  let e : level ≡ p = ground arith in
                  let n : 0 < count u pushed = rw same at in_q in
                  let a = count-pushed u in
                  let m : 0 < count u (s.run_queues level) = ground (arith, a, n) in
                  subst (λ v. 0 < count u (s.run_queues v)) e m
              | inr other ↦ rw other at in_q
            ] in
            rw not_me (r.recorded p u there)
      ]
