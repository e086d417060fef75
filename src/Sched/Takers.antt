-- ===== src/Sched/Takers.antt =====
-- SchedAnyCpuTakers: the ready mask tells whether a task of some level or a higher one is ready.
use zuzu.Base.{
  ℕ, zero, suc, ◌-◌, ◌/◌, ◌%◌, ◌≤◌, ◌≡◌, sym, ◌∙◌, ◌≢◌, ◌↔◌, inl, inr, Bool, true, false, not, some,
  arith, leb, ◌==◌, if◌then◌else◌, Bool-cases,
}
use zuzu.Base.Bits.{test_bit, low_bits, test_bit-zero}
use zuzu.Sched.Defs.{Task, Sched, priority_levels, is_empty, any_takers}
use zuzu.Sched.Ready.{IsReady}

-- A nonzero number has a set bit.
some_bit : (n w : ℕ) → w ≤ n → w ≢ 0 → (j : ℕ) × (test_bit w j ≡ true)
unfolding test_bit
some_bit zero w le ne = absurd (ne (omega arith))
some_bit (suc n) w le ne = elim (Bool-cases (w % 2 == 1)) [
  | inl odd ↦ (0, odd)
  | inr even ↦
      let half = some_bit n (w / 2) (omega arith) (λ z. absurd (ne (ground arith))) in
      (suc half.0, half.1)
]

-- The bits of `w` from `k` on.
high_bits-test_bit :
    (w k : ℕ) → (w - low_bits w k ≢ 0) → (j : ℕ) × ((k ≤ j) × (test_bit w j ≡ true))
unfolding test_bit low_bits
high_bits-test_bit w zero ne =
    let b = some_bit w w (omega arith) (λ z. ne (omega arith)) in (b.0, (omega arith, b.1))
high_bits-test_bit w (suc k) ne =
    let b = high_bits-test_bit (w / 2) k (λ z. ne (omega arith)) in
    (suc b.0, (omega (arith, b.1.0), b.1.1))

test_bit-high_bits : (w k j : ℕ) → k ≤ j → test_bit w j ≡ true → w - low_bits w k ≢ 0
unfolding test_bit low_bits
test_bit-high_bits w zero j le b e =
    let z : w ≡ 0 = omega arith in let c = test_bit-zero j in let b' = rw z at b in absurd (cc)
test_bit-high_bits w (suc k) zero le b e = absurd (omega arith)
test_bit-high_bits w (suc k) (suc j) le b e =
    test_bit-high_bits (w / 2) k j (omega arith) b (omega arith)

-- The priority at which SchedAnyCpuTakers looks for tasks.
abbrev pub floor : Task → ℕ
floor k = if leb priority_levels k.priority then priority_levels - 1 else k.priority

-- A level from `floor` on has a task.
abbrev HasTaker : Sched → ℕ → Type 0
HasTaker s t = (q : ℕ) × ((floor (s.tasks t) ≤ q) × (is_empty (s.run_queues q) ≡ false))

taker_of :
    (s : Sched) (t : ℕ)
    → IsReady s
    → s.ready_mask - low_bits s.ready_mask (floor (s.tasks t)) ≢ 0
    → HasTaker s t
taker_of s t r ne =
    let b = high_bits-test_bit s.ready_mask (floor (s.tasks t)) ne in
    (b.0, (b.1.0, not_true (sym (r.masked b.0) ∙ b.1.1)))
  where
    not_true : {b : Bool} → not b ≡ true → b ≡ false
    not_true {b} h = ground arith

-- On a consistent state SchedAnyCpuTakers answers whether a ready task stands on a level no lower
-- than the priority of the task, which counts as the highest level where it is above all levels.
pub any_takers-HasTaker :
    (s : Sched) (t : ℕ) → IsReady s → ((any_takers s (some t) ≡ true) ↔ HasTaker s t)
unfolding any_takers
any_takers-HasTaker s t r = (
  (λ yes. taker_of s t r (λ z. absurd (ground arith))),
  (λ taker.
      let m = r.masked taker.0 in
      let full : test_bit s.ready_mask taker.0 ≡ true = rw (m, taker.1.1) in
      let ne = test_bit-high_bits s.ready_mask (floor (s.tasks t)) taker.0 taker.1.0 full in
      ground (arith, ne)),
)
