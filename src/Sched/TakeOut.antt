-- ===== src/Sched/TakeOut.antt =====
-- A task leaves its run queue: ListPopFront and ListRemove in sched.c, and the test of the queue
-- after them.
use zuzu.Base.{
  ℕ, ◌≤◌, ◌<◌, ◌≡◌, refl, sym, ◌≢◌, inl, inr, true, false, not, List, [], ◌∷◌, arith, ◌==◌,
  Bool-cases,
}
use zuzu.Base.Bits.{test_bit, test_bit-clear_bit}
use zuzu.Sched.Defs.{Sched, priority_levels, is_empty, erase, take_out}
use mathlib.Core.Path.{subst}
use zuzu.Sched.Tasks.{count, count-erase_self, count-erase_other}
use zuzu.Sched.Ready.{IsReady}

-- `rest` is `xs` without `t`.
pub record IsWithout (t : ℕ) (xs rest : List ℕ) : Type 0 where
  pub gone : count t rest ≡ 0
  pub kept : (u : ℕ) → t ≢ u → count u rest ≡ count u xs
  pub emptied : is_empty xs ≡ true → is_empty rest ≡ true

is_empty→nil : (xs : List ℕ) → is_empty xs ≡ true → xs ≡ []
is_empty→nil [] h = refl
is_empty→nil (x ∷ xs) h = absurd (ground arith)

pub erase-IsWithout : (t : ℕ) (xs : List ℕ) → count t xs ≤ 1 → IsWithout t xs (erase t xs)
unfolding erase
erase-IsWithout t xs h = record {
  gone = omega (arith, count-erase_self t xs);
  kept = λ u ne. count-erase_other t u xs ne;
  emptied = λ e. rw (is_empty→nil xs e);
}

pub take_out-IsReady :
    (s : Sched) (level t : ℕ) (rest : List ℕ)
    → IsReady s
    → (s.tasks t).queued_prio ≡ level
    → IsWithout t (s.run_queues level) rest
    → IsReady (take_out s level t rest)
unfolding take_out
take_out-IsReady s level t rest r home w = record {
  masked = masked;
  bounded = bounded;
  recorded = recorded;
  once = once;
}
  where
    masked :
        (p : ℕ)
        → test_bit (take_out s level t rest).ready_mask p
          ≡ not (is_empty ((take_out s level t rest).run_queues p))
    masked p =
        let b = test_bit-clear_bit s.ready_mask level p in
        let m = r.masked p in
        elim (Bool-cases (level == p)) [
          | inl same ↦
              let e : level ≡ p = ground arith in
              let m' =
                subst (λ q. test_bit s.ready_mask q ≡ not (is_empty (s.run_queues q))) (sym e) m in
              elim (Bool-cases (is_empty rest)) [
                | inl z ↦ rw (same, z, b, same)
                | inr n ↦
                    let full : is_empty (s.run_queues level) ≡ false =
                      elim (Bool-cases (is_empty (s.run_queues level))) [
                        | inl q ↦ let q' = w.emptied q in absurd (ground arith)
                        | inr q ↦ q
                      ] in
                    rw (same, n, m, ← e, full)
              ]
          | inr other ↦ elim (Bool-cases (is_empty rest)) [
            | inl z ↦ rw (other, z, b, other) m
            | inr n ↦ rw (other, n) m
          ]
        ]

    bounded : (p : ℕ) → priority_levels ≤ p → (take_out s level t rest).run_queues p ≡ []
    bounded p high = elim (Bool-cases (level == p)) [
      | inl same ↦
          let e : level ≡ p = ground arith in
          rw same (is_empty→nil rest (w.emptied (rw (e, r.bounded p high))))
      | inr other ↦ rw other (r.bounded p high)
    ]

    none_left : (p : ℕ) → count t ((take_out s level t rest).run_queues p) ≡ 0
    none_left p = elim (Bool-cases (level == p)) [
      | inl same ↦ rw same w.gone
      | inr other ↦ rw other (elim (Bool-cases (count t (s.run_queues p) == 0)) [
        | inl z ↦ ground arith
        | inr n ↦ let q = (r.recorded p t (ground arith)).1 in absurd (ground (arith, q, home))
      ])
    ]

    fewer : (p u : ℕ) → count u ((take_out s level t rest).run_queues p) ≤ count u (s.run_queues p)
    fewer p u = elim (Bool-cases (level == p)) [
      | inl same ↦
          let e : level ≡ p = ground arith in
          rw (same, ← e)
            (elim (Bool-cases (t == u)) [
              | inl me ↦ let e' : u ≡ t = ground arith in rw (e', w.gone) (omega arith)
              | inr not_me ↦ let k = w.kept u (ground arith) in omega arith
            ])
      | inr other ↦ rw other (omega arith)
    ]

    once : (p u : ℕ) → count u ((take_out s level t rest).run_queues p) ≤ 1
    once p u = omega (arith, fewer p u, r.once p u)

    recorded :
        (p u : ℕ)
        → 0 < count u ((take_out s level t rest).run_queues p)
        → (((take_out s level t rest).tasks u).linked ≡ true)
          × (((take_out s level t rest).tasks u).queued_prio ≡ p)
    recorded p u in_q = elim (Bool-cases (t == u)) [
      | inl me ↦
          let e : u ≡ t = ground arith in
          let here = subst (λ v. 0 < count v ((take_out s level t rest).run_queues p)) e in_q in
          let z = none_left p in absurd (omega arith)
      | inr not_me ↦ let f = fewer p u in rw not_me (r.recorded p u (omega arith))
    ]
