-- ===== src/Sched/Order.antt =====
-- The order in which the run queues hold the ready tasks, higher levels first and each level in
-- the order of its queue: the abstract view of sched.c's run queues.
use zuzu.Base.{
  ℕ, zero, suc, ◌≤◌, ◌<◌, ◌≡◌, refl, sym, ap, ◌≢◌, inl, inr, true, false, List, [], ◌∷◌, ◌++◌,
  arith, ◌==◌, Bool-cases,
}
use zuzu.Sched.Defs.{update, erase}
use mathlib.Core.Path.{subst}
use mathlib.Core.List.{append_assoc}
use zuzu.Sched.Tasks.{count, count-append, erase-append_in, erase-append_out, erase-absent}

-- The tasks of the levels below `n`.
unfoldable pub ready_order : (ℕ → List ℕ) → ℕ → List ℕ
ready_order f zero = []
ready_order f (suc level) = f level ++ ready_order f level

module _ (f : ℕ → List ℕ) where
  pub ready_order-nil : (n : ℕ) → ((q : ℕ) → q < n → f q ≡ []) → ready_order f n ≡ []
  unfolding ready_order
  ready_order-nil zero h = refl
  ready_order-nil (suc n) h = rw (h n (omega arith)) (ready_order-nil n (λ q lt. h q (omega arith)))

  -- With the levels from `p` to `n` empty, but `p`'s own.
  pub ready_order-top :
      (n p : ℕ)
      → p < n
      → ((q : ℕ) → p < q → q < n → f q ≡ [])
      → ready_order f n ≡ f p ++ ready_order f p
  unfolding ready_order
  ready_order-top zero p lt h = absurd (omega arith)
  ready_order-top (suc n) p lt h = elim (Bool-cases (p == n)) [
    | inl same ↦ let e : p ≡ n = ground arith in rw e
    | inr other ↦
        let under : p < n = ground arith in
        rw (h n under (omega arith)) (ready_order-top n p under (λ q a b. h q a (omega arith)))
  ]

  pub ready_order-update :
      (n p : ℕ) (xs : List ℕ) → n ≤ p → ready_order (update f p xs) n ≡ ready_order f n
  unfolding ready_order
  ready_order-update zero p xs h = refl
  ready_order-update (suc n) p xs h =
      let e : (p == n) ≡ false = ground arith in
      rw e (ap (λ r. f n ++ r) (ready_order-update n p xs (omega arith)))

  pub count-ready_order :
      (n t : ℕ) → ((q : ℕ) → q < n → count t (f q) ≡ 0) → count t (ready_order f n) ≡ 0
  unfolding ready_order
  count-ready_order zero t h = refl
  count-ready_order (suc n) t h = omega (
    arith,
    count-append t (f n) (ready_order f n),
    h n (omega arith),
    count-ready_order n t (λ q lt. h q (omega arith)),
  )

  erase_top :
      (n t : ℕ)
      → ((q : ℕ) → q < n → count t (f q) ≡ 0)
      → ready_order (update f n (erase t (f n))) (suc n) ≡ erase t (ready_order f (suc n))
  unfolding ready_order erase
  erase_top n t h =
      let same : (n == n) ≡ true = ground arith in
      rw (same, ready_order-update n n (erase t (f n)) (omega arith))
        (elim (Bool-cases (count t (f n) == 0)) [
          | inl z ↦
              let c : count t (f n) ≡ 0 = ground arith in
              rw (
                erase-absent t (f n) c,
                erase-append_out t (f n) (ready_order f n) c,
                erase-absent t (ready_order f n) (count-ready_order n t h),
              )
          | inr nz ↦ sym (erase-append_in t (f n) (ready_order f n) (ground arith))
        ])

  pub ready_order-erase :
      (n p t : ℕ)
      → ((q : ℕ) → p ≢ q → count t (f q) ≡ 0)
      → ready_order (update f p (erase t (f p))) n ≡ erase t (ready_order f n)
  unfolding ready_order erase
  ready_order-erase zero p t h = refl
  ready_order-erase (suc n) p t h = elim (Bool-cases (p == n)) [
    | inl same ↦
        let e : p ≡ n = ground arith in
        subst
          (λ v. ready_order (update f v (erase t (f v))) (suc n) ≡ erase t (ready_order f (suc n)))
          (sym e) (erase_top n t (λ q lt. h q (λ e'. absurd (omega arith))))
    | inr other ↦ rw (
      other,
      ready_order-erase n p t h,
      erase-append_out t (f n) (ready_order f n) (h n (ground arith)),
    )
  ]

-- `t` enters level `p`: before it stand the tasks of the higher levels and, but in front, of `p`.
pub record IsInserted (old new : List ℕ) (t : ℕ) (lower : List ℕ) : Type 0 where
  pub upper : List ℕ
  pub before : old ≡ upper ++ lower
  pub after : new ≡ upper ++ (t ∷ lower)

module _ (f : ℕ → List ℕ) where
  top-IsInserted :
      (n t : ℕ) (xs lower : List ℕ)
      → IsInserted (f n ++ ready_order f n) (xs ++ ready_order f n) t lower
      → IsInserted (ready_order f (suc n)) (ready_order (update f n xs) (suc n)) t lower
  unfolding ready_order
  top-IsInserted n t xs lower i =
      let same : (n == n) ≡ true = ground arith in
      record {
        upper = i.upper;
        before = i.before;
        after = rw (same, ready_order-update f n n xs (omega arith)) i.after;
      }

  pub ready_order-IsInserted :
      (n p t : ℕ) (xs lower : List ℕ)
      → p < n
      → IsInserted (f p ++ ready_order f p) (xs ++ ready_order f p) t lower
      → IsInserted (ready_order f n) (ready_order (update f p xs) n) t lower
  unfolding ready_order
  ready_order-IsInserted zero p t xs lower lt i = absurd (omega arith)
  ready_order-IsInserted (suc n) p t xs lower lt i = elim (Bool-cases (p == n)) [
    | inl same ↦
        let e : p ≡ n = ground arith in
        subst
          (λ v. IsInserted (ready_order f (suc n)) (ready_order (update f v xs) (suc n)) t lower)
          (sym e)
          (top-IsInserted n t xs lower
            (subst (λ v. IsInserted (f v ++ ready_order f v) (xs ++ ready_order f v) t lower) e i))
    | inr other ↦
        let r = ready_order-IsInserted n p t xs lower (ground arith) i in
        record {
          upper = f n ++ r.upper;
          before = rw (append_assoc (f n) r.upper lower) (ap (λ q. f n ++ q) r.before);
          after = rw (other, append_assoc (f n) r.upper (t ∷ lower)) (ap (λ q. f n ++ q) r.after);
        }
  ]
