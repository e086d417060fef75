-- ===== src/Sched/Tasks.antt =====
-- Occurrences of a task in a queue.
use zuzu.Base.{
  ℕ, suc, ◌+◌, ◌-◌, ◌<◌, ◌≡◌, refl, ap, ◌≢◌, inl, inr, List, [], ◌∷◌, ◌++◌, arith, ◌==◌,
  if◌then◌else◌, Bool-cases,
}
use zuzu.Sched.Defs.{erase}

abbrev pub count : ℕ → List ℕ → ℕ
count t [] = 0
count t (x ∷ xs) = if t == x then suc (count t xs) else count t xs

pub count-append : (t : ℕ) (xs ys : List ℕ) → count t (xs ++ ys) ≡ count t xs + count t ys
count-append t [] ys = omega arith
count-append t (x ∷ xs) ys = ground (arith, count-append t xs ys)

pub count-erase_self : (t : ℕ) (xs : List ℕ) → count t (erase t xs) ≡ count t xs - 1
unfolding erase
count-erase_self t [] = refl
count-erase_self t (x ∷ xs) = elim (Bool-cases (t == x)) [
  | inl same ↦ rw same (omega arith)
  | inr other ↦ rw other (rw other (count-erase_self t xs))
]

pub count-erase_other : (t u : ℕ) (xs : List ℕ) → t ≢ u → count u (erase t xs) ≡ count u xs
unfolding erase
count-erase_other t u [] ne = refl
count-erase_other t u (x ∷ xs) ne = ground (arith, count-erase_other t u xs ne)

pub erase-absent : (t : ℕ) (xs : List ℕ) → count t xs ≡ 0 → erase t xs ≡ xs
unfolding erase
erase-absent t [] h = refl
erase-absent t (x ∷ xs) h = elim (Bool-cases (t == x)) [
  | inl same ↦ absurd (ground arith)
  | inr other ↦ rw other (ap (λ r. x ∷ r) (erase-absent t xs (ground arith)))
]

pub erase-append_in :
    (t : ℕ) (xs ys : List ℕ) → 0 < count t xs → erase t (xs ++ ys) ≡ erase t xs ++ ys
unfolding erase
erase-append_in t [] ys h = absurd (omega arith)
erase-append_in t (x ∷ xs) ys h = elim (Bool-cases (t == x)) [
  | inl same ↦ rw same
  | inr other ↦ rw other (ap (λ r. x ∷ r) (erase-append_in t xs ys (ground arith)))
]

pub erase-append_out :
    (t : ℕ) (xs ys : List ℕ) → count t xs ≡ 0 → erase t (xs ++ ys) ≡ xs ++ erase t ys
unfolding erase
erase-append_out t [] ys h = refl
erase-append_out t (x ∷ xs) ys h = elim (Bool-cases (t == x)) [
  | inl same ↦ absurd (ground arith)
  | inr other ↦ rw other (ap (λ r. x ∷ r) (erase-append_out t xs ys (ground arith)))
]
