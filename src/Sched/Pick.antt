-- ===== src/Sched/Pick.antt =====
-- SchedPickNext and SchedRemoveRunQueue against the order of the ready tasks.
use zuzu.Base.{
  ℕ, zero, suc, ◌≤◌, ◌<◌, ◌≡◌, refl, sym, ◌∙◌, ◌≢◌, inl, inr, true, false, not, Option, none, some,
  List, [], ◌∷◌, ◌++◌, arith, ◌==◌, Bool-cases,
}
use zuzu.Base.Bits.{test_bit}
use zuzu.Sched.Defs.{
  Sched, priority_levels, update, is_empty, erase, take_out, pick_level, pick_from, pick_next,
  remove_run_queue,
}
use mathlib.Core.Path.{subst}
use zuzu.Sched.Tasks.{count, erase-absent}
use zuzu.Sched.Ready.{IsReady, absent}
use zuzu.Sched.TakeOut.{IsWithout, erase-IsWithout, take_out-IsReady}
use zuzu.Sched.Order.{
  ready_order, ready_order-nil, ready_order-top, ready_order-update, ready_order-erase,
  count-ready_order,
}

abbrev pub order : Sched → List ℕ
order s = ready_order s.run_queues priority_levels

-- Where the loop over the levels below `n` stops.
data Found (s : Sched) (n : ℕ) : Option ℕ × Sched → Type 0 where
  none_ready : ((q : ℕ) → q < n → s.run_queues q ≡ []) → Found s n (none, s)
  first_of :
      (p t : ℕ) (rest : List ℕ)
      → p < n
      → s.run_queues p ≡ t ∷ rest
      → ((q : ℕ) → p < q → q < n → s.run_queues q ≡ [])
      → Found s n (some t, take_out s p t rest)

empty_of : (s : Sched) → IsReady s → (p : ℕ) → test_bit s.ready_mask p ≡ false → s.run_queues p ≡ []
empty_of s r p h =
    let m = r.masked p in
    elim (s.run_queues p) as (λ xs. not (is_empty xs) ≡ false → xs ≡ []) [
      | [] ↦ λ _. refl
      | x ∷ xs ↦ λ e. absurd (ground arith)
    ]
      (sym m ∙ h)

module _ (s : Sched) (n : ℕ) (low : s.run_queues n ≡ []) where
  widen : (r : Option ℕ × Sched) → Found s n r → Found s (suc n) r
  widen r (none_ready e) = none_ready (λ q lt. elim (Bool-cases (q == n)) [
    | inl same ↦ let e' : q ≡ n = ground arith in rw e' low
    | inr other ↦ e q (ground arith)
  ])
  widen r (first_of p t rest lt at above) = first_of p t rest (omega arith) at (λ q a b.
      elim (Bool-cases (q == n)) [
        | inl same ↦ let e' : q ≡ n = ground arith in rw e' low
        | inr other ↦ above q a (ground arith)
      ])

pick_level-Found :
    (s : Sched) (n : ℕ) (xs : List ℕ) (c : Option ℕ × Sched)
    → s.run_queues n ≡ xs
    → is_empty xs ≡ false
    → Found s (suc n) (pick_level s n xs c)
unfolding pick_level
pick_level-Found s n [] c e h = absurd (ground arith)
pick_level-Found s n (t ∷ rest) c e h =
    first_of n t rest (omega arith) e (λ q a b. absurd (omega arith))

pick_from-Found : (n : ℕ) (s : Sched) → IsReady s → Found s n (pick_from n s)
unfolding pick_from
pick_from-Found zero s r = none_ready (λ q lt. absurd (omega arith))
pick_from-Found (suc n) s r = elim (Bool-cases (test_bit s.ready_mask n)) [
  | inr clear ↦ rw (clear, pick_from) (widen s n (empty_of s r n clear) _ (pick_from-Found n s r))
  | inl set ↦
      let full : is_empty (s.run_queues n) ≡ false = elim (Bool-cases (is_empty (s.run_queues n))) [
        | inl e ↦ let m = r.masked n in absurd (ground arith)
        | inr f ↦ f
      ] in
      rw (set, pick_from) (pick_level-Found s n (s.run_queues n) _ refl full)
]

-- What SchedPickNext promises: the idle task where no task is ready, and else the first of the
-- ready tasks, which leaves their order and is unlinked.
pub data Picked (s : Sched) : Option ℕ × Sched → Type 0 where
  idle : order s ≡ [] → Picked s (none, s)
  chosen :
      (t : ℕ) (s' : Sched)
      → order s ≡ t ∷ order s'
      → (s'.tasks t).linked ≡ false
      → IsReady s'
      → Picked s (some t, s')

tail-IsWithout : (t : ℕ) (rest : List ℕ) → count t (t ∷ rest) ≤ 1 → IsWithout t (t ∷ rest) rest
tail-IsWithout t rest h =
    let same : (t == t) ≡ true = ground arith in
    let one : suc (count t rest) ≤ 1 = rw same at h in
    record { gone = omega arith; kept = λ u ne. ground arith; emptied = λ e. absurd (ground arith) }

module _ (s : Sched) (p t : ℕ) (rest : List ℕ) (at : s.run_queues p ≡ t ∷ rest) where
  take_first-order :
      p < priority_levels
      → ((q : ℕ) → p < q → q < priority_levels → s.run_queues q ≡ [])
      → order s ≡ t ∷ order (take_out s p t rest)
  unfolding take_out
  take_first-order lt above =
      let same : (p == p) ≡ true = ground arith in
      let f' = update s.run_queues p rest in
      let above' : (q : ℕ) → p < q → q < priority_levels → f' q ≡ [] =
        λ q a b. let other : (p == q) ≡ false = ground arith in rw other (above q a b) in
      let new : ready_order f' priority_levels ≡ rest ++ ready_order s.run_queues p =
        ready_order-top f' priority_levels p lt above'
        ∙ rw (same, ready_order-update s.run_queues p p rest (omega arith)) in
      rw new (rw (ready_order-top s.run_queues priority_levels p lt above, at))

  take_first-IsReady : IsReady s → IsReady (take_out s p t rest)
  take_first-IsReady r =
      let same : (t == t) ≡ true = ground arith in
      let here : 0 < count t (s.run_queues p) = rw (at, same) (omega arith) in
      let few = subst (λ xs. count t xs ≤ 1) at (r.once p t) in
      take_out-IsReady s p t rest r (r.recorded p t here).1
        (subst (λ xs. IsWithout t xs rest) (sym at) (tail-IsWithout t rest few))

picked : (s : Sched) → IsReady s → (r : Option ℕ × Sched) → Found s priority_levels r → Picked s r
unfolding take_out
picked s r _ (none_ready e) = idle (ready_order-nil s.run_queues priority_levels e)
picked s r _ (first_of p t rest lt at above) =
    let same : (t == t) ≡ true = ground arith in
    chosen t _ (take_first-order s p t rest at lt above) (rw same)
      (take_first-IsReady s p t rest at r)

-- On a consistent state SchedPickNext returns the idle task and changes nothing where no task is
-- ready; else it returns the first task of the order in which the queues hold the ready tasks, the
-- higher levels first and each level first in, first out, and leaves a consistent state with that
-- task unlinked and the others in the same order.
pub pick_next-Picked : (s : Sched) → IsReady s → Picked s (pick_next s)
unfolding pick_next
pick_next-Picked s r = picked s r _ (pick_from-Found priority_levels s r)

module _ (s : Sched) (t : ℕ) where
  abbrev Removal : Sched → Type 0
  Removal s' = IsReady s' × (((s'.tasks t).linked ≡ false) × (order s' ≡ erase t (order s)))

  not_queued : IsReady s → (s.tasks t).linked ≡ false → Removal s
  not_queued r out =
      let gone = count-ready_order s.run_queues priority_levels t (λ q _. absent s r t out q) in
      (r, (out, sym (erase-absent t (order s) gone)))

  elsewhere : IsReady s → (q : ℕ) → (s.tasks t).queued_prio ≢ q → count t (s.run_queues q) ≡ 0
  elsewhere r q ne = elim (Bool-cases (count t (s.run_queues q) == 0)) [
    | inl z ↦ ground arith
    | inr n ↦ absurd (ne (r.recorded q t (ground arith)).1)
  ]

  abbrev home : ℕ
  home = (s.tasks t).queued_prio

  was_queued : IsReady s → Removal (take_out s home t (erase t (s.run_queues home)))
  unfolding take_out
  was_queued r =
      let same : (t == t) ≡ true = ground arith in
      (
        take_out-IsReady s home t _ r refl (erase-IsWithout t (s.run_queues home) (r.once home t)),
        (rw same, ready_order-erase s.run_queues priority_levels home t (elsewhere r)),
      )

-- On a consistent state SchedRemoveRunQueue leaves a consistent state in which the task is unlinked
-- and the other ready tasks keep their order.
pub remove_run_queue-order :
    (s : Sched) (t : ℕ)
    → IsReady s
    → (IsReady (remove_run_queue s t)
        × ((((remove_run_queue s t).tasks t).linked ≡ false)
            × (order (remove_run_queue s t) ≡ erase t (order s))))
unfolding remove_run_queue
remove_run_queue-order s t r = elim (Bool-cases (s.tasks t).linked) [
  | inl on ↦ rw on (was_queued s t r)
  | inr off ↦ rw off (not_queued s t r off)
]
