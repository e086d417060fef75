-- ===== src/Sched/Wait.antt =====
-- The wait queues of sched.c: SchedWaitQueueAdd and SchedWaitQueueAddTask keep a queue in the order
-- of falling priority, and equal priorities in the order of arrival.
use zuzu.Base.{
  ℕ, ◌≤◌, ◌<◌, ◌≡◌, refl, sym, ◌∙◌, ◌⊎◌, inl, inr, List, [], ◌∷◌, ◌++◌, arith, ltb, ltb→lt,
  ltb_false→le, Bool-cases,
}
use zuzu.Sched.Defs.{put_back, walk, wait_queue_add}
use mathlib.Core.List.{append_assoc, append-nil}
use mathlib.Core.Path.{subst}

pub data All (P : ℕ → Type 0) : List ℕ → Type 0 where
  nil : All P []
  cons : {x : ℕ} {xs : List ℕ} → P x → All P xs → All P (x ∷ xs)

map-All : {P Q : ℕ → Type 0} → ((x : ℕ) → P x → Q x) → {xs : List ℕ} → All P xs → All Q xs
map-All f nil = nil
map-All f (cons {x} p ps) = cons (f x p) (map-All f ps)

insert-All :
    {P : ℕ → Type 0} (t : ℕ) → P t → (xs ys : List ℕ) → All P (xs ++ ys) → All P (xs ++ (t ∷ ys))
insert-All t h [] ys a = cons h a
insert-All t h (x ∷ xs) ys (cons p a) = cons p (insert-All t h xs ys a)

at-All : {P : ℕ → Type 0} (xs : List ℕ) (x : ℕ) (ys : List ℕ) → All P (xs ++ (x ∷ ys)) → P x
at-All [] x ys (cons p a) = p
at-All (y ∷ xs) x ys (cons p a) = at-All xs x ys a

module _ (priority : ℕ → ℕ) where
  -- In the order of falling priority.
  pub data IsFalling : List ℕ → Type 0 where
    none_waits : IsFalling []
    falls :
        {x : ℕ} {xs : List ℕ}
        → All (λ y. priority y ≤ priority x) xs
        → IsFalling xs
        → IsFalling (x ∷ xs)

  -- Where the walk from the tail stops.
  record Stop (q r : List ℕ) (t : ℕ) : Type 0 where
    upper : List ℕ
    lower : List ℕ
    before : q ≡ upper ++ lower
    after : r ≡ upper ++ (t ∷ lower)
    behind : All (λ y. priority y < priority t) lower
    last :
        (upper ≡ [])
        ⊎ ((pre : List ℕ) × ((x : ℕ) × ((upper ≡ pre ++ (x ∷ [])) × (priority t ≤ priority x))))

  -- What adding `t` to the queue promises.
  pub record IsPlaced (q r : List ℕ) (t : ℕ) : Type 0 where
    pub upper : List ℕ
    pub lower : List ℕ
    pub before : q ≡ upper ++ lower
    pub after : r ≡ upper ++ (t ∷ lower)
    pub ahead : All (λ y. priority t ≤ priority y) upper
    pub behind : All (λ y. priority y < priority t) lower
    pub falling : IsFalling r

  put_back-append : (xs ys : List ℕ) → put_back priority xs ys ≡ put_back priority xs [] ++ ys
  unfolding put_back
  put_back-append [] ys = refl
  put_back-append (x ∷ xs) ys =
      rw (put_back-append xs (x ∷ ys), put_back-append xs (x ∷ []))
        (sym (append_assoc (put_back priority xs []) (x ∷ []) ys))

  put_back-put_back :
      (xs ys zs : List ℕ)
      → put_back priority (put_back priority xs ys) zs ≡ put_back priority ys (xs ++ zs)
  unfolding put_back
  put_back-put_back [] ys zs = refl
  put_back-put_back (x ∷ xs) ys zs = put_back-put_back xs (x ∷ ys) zs

  walk-Stop :
      (t : ℕ) (xs ys : List ℕ)
      → All (λ y. priority y < priority t) ys
      → Stop (put_back priority xs ys) (walk priority t xs ys) t
  unfolding walk put_back
  walk-Stop t [] ys a = record {
    upper = [];
    lower = ys;
    before = refl;
    after = refl;
    behind = a;
    last = inl refl;
  }
  walk-Stop t (x ∷ xs) ys a = elim (Bool-cases (ltb (priority x) (priority t))) [
    | inl lt ↦ rw lt (walk-Stop t xs (x ∷ ys) (cons (ltb→lt _ _ lt) a))
    | inr ge ↦
        let up = put_back priority xs [] in
        rw ge (record {
          upper = up ++ (x ∷ []);
          lower = ys;
          before = put_back-append xs (x ∷ ys) ∙ sym (append_assoc up (x ∷ []) ys);
          after = put_back-append xs (x ∷ t ∷ ys) ∙ sym (append_assoc up (x ∷ []) (t ∷ ys));
          behind = a;
          last = inr (up, (x, (refl, ltb_false→le _ _ ge)));
        })
  ]

  -- The tasks ahead of one in a falling queue.
  ahead_of :
      (pre : List ℕ) (x : ℕ) (ys : List ℕ)
      → IsFalling (pre ++ (x ∷ ys))
      → All (λ y. priority x ≤ priority y) (pre ++ (x ∷ []))
  ahead_of [] x ys f = cons (omega arith) nil
  ahead_of (y ∷ pre) x ys (falls a f) = cons (at-All pre x ys a) (ahead_of pre x ys f)

  insert-IsFalling :
      (t : ℕ) (upper lower : List ℕ)
      → IsFalling (upper ++ lower)
      → All (λ y. priority t ≤ priority y) upper
      → All (λ y. priority y < priority t) lower
      → IsFalling (upper ++ (t ∷ lower))
  insert-IsFalling t [] lower f a b = falls (map-All (λ y lt. omega arith) b) f
  insert-IsFalling t (x ∷ upper) lower (falls m f) (cons h a) b =
      falls (insert-All t h upper lower m) (insert-IsFalling t upper lower f a b)

  stop-ahead :
      (t : ℕ) (upper lower : List ℕ)
      → IsFalling (upper ++ lower)
      → ((upper ≡ [])
          ⊎ ((pre : List ℕ) × ((x : ℕ) × ((upper ≡ pre ++ (x ∷ [])) × (priority t ≤ priority x)))))
      → All (λ y. priority t ≤ priority y) upper
  stop-ahead t upper lower f (inl e) = rw e nil
  stop-ahead t upper lower f (inr (pre, (x, (e, le)))) =
      let g : IsFalling (pre ++ (x ∷ lower)) =
        subst IsFalling (append_assoc pre (x ∷ []) lower)
          (subst (λ u. IsFalling (u ++ lower)) e f) in
      rw e (map-All (λ y h. omega arith) (ahead_of pre x lower g))

  placed : (t : ℕ) (q r : List ℕ) → IsFalling q → Stop q r t → IsPlaced q r t
  placed t q r f s =
      let f' = subst IsFalling s.before f in
      let ahead = stop-ahead t s.upper s.lower f' s.last in
      record {
        upper = s.upper;
        lower = s.lower;
        before = s.before;
        after = s.after;
        ahead = ahead;
        behind = s.behind;
        falling =
            subst IsFalling (sym s.after) (insert-IsFalling t s.upper s.lower f' ahead s.behind);
      }

  -- In a queue in the order of falling priority, SchedWaitQueueAdd puts a task behind all those of at
  -- least its priority and before all those of a lower one, and the queue stays in that order.
  pub wait_queue_add-IsPlaced :
      (q : List ℕ) (t : ℕ) → IsFalling q → IsPlaced q (wait_queue_add priority q t) t
  unfolding wait_queue_add put_back
  wait_queue_add-IsPlaced q t f =
      let whole : put_back priority (put_back priority q []) [] ≡ q =
        put_back-put_back q [] [] ∙ append-nil q in
      placed t q _ f (
        subst (λ v. Stop v (wait_queue_add priority q t) t) whole
          (walk-Stop t (put_back priority q []) [] nil))
