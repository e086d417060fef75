-- ===== src/Klib/Compare.antt =====
-- What the comparisons and copies of klib/string.c promise.
use zuzu.Base.{
  ℕ, zero, suc, ◌-◌, ◌<◌, ◌≡◌, refl, ◌⊎◌, inl, inr, true, false, List, [], ◌∷◌, ◌++◌, arith, leb,
  ◌==◌, Bool-cases, take,
}
use zuzu.Base.Int.{ℤ, pos, negsuc, sub_ℕ}
use zuzu.Klib.Str.{strcmp, strncmp}

-- No character is the NUL.
abbrev pub NoNul : List ℕ → Type 0
NoNul [] = Unit
NoNul (c ∷ s) = (0 < c) × NoNul s

-- The first place where the strings differ decides.
pub data Compared : List ℕ → List ℕ → ℤ → Type 0 where
  equal : (s : List ℕ) → Compared s s (pos 0)
  less :
      (front s1 s2 : List ℕ) (y n : ℕ)
      → (s1 ≡ []) ⊎ ((x : ℕ) × ((r : List ℕ) × ((s1 ≡ x ∷ r) × (x < y))))
      → Compared (front ++ s1) (front ++ (y ∷ s2)) (negsuc n)
  greater :
      (front s1 s2 : List ℕ) (x n : ℕ)
      → (s2 ≡ []) ⊎ ((y : ℕ) × ((r : List ℕ) × ((s2 ≡ y ∷ r) × (y < x))))
      → Compared (front ++ (x ∷ s1)) (front ++ s2) (pos (suc n))

behind : (x : ℕ) (s1 s2 : List ℕ) (r : ℤ) → Compared s1 s2 r → Compared (x ∷ s1) (x ∷ s2) r
behind x _ _ _ (equal s) = equal (x ∷ s)
behind x _ _ _ (less front s1 s2 y n d) = less (x ∷ front) s1 s2 y n d
behind x _ _ _ (greater front s1 s2 z n d) = greater (x ∷ front) s1 s2 z n d

apart : (x y : ℕ) (s1 s2 : List ℕ) → (x == y) ≡ false → Compared (x ∷ s1) (y ∷ s2) (sub_ℕ x y)
apart x y s1 s2 ne = elim (Bool-cases (leb y x)) [
  | inl ge ↦
      let e : x - y ≡ suc (x - y - 1) = ground arith in
      rw (ge, e) (greater [] s1 (y ∷ s2) x (x - y - 1) (inr (y, (s2, (refl, ground arith)))))
  | inr lt ↦ rw lt (less [] (x ∷ s1) s2 y (y - x - 1) (inr (x, (s1, (refl, ground arith)))))
]

-- On strings without a NUL in them, strcmp returns 0 exactly where they are equal, and else the sign of
-- the first difference, the end of a string counting as below every character.
pub strcmp-Compared : (s1 s2 : List ℕ) → NoNul s1 → NoNul s2 → Compared s1 s2 (strcmp s1 s2)
unfolding strcmp
strcmp-Compared [] [] a b = equal []
strcmp-Compared [] (y ∷ s2) a b =
    let e : leb y 0 ≡ false = ground arith in rw e (less [] [] s2 y (y - 0 - 1) (inl refl))
strcmp-Compared (x ∷ s1) [] a b =
    let t : leb 0 x ≡ true = ground arith in
    let e : x - 0 ≡ suc (x - 1) = ground arith in rw (t, e) (greater [] s1 [] x (x - 1) (inl refl))
strcmp-Compared (x ∷ s1) (y ∷ s2) a b = elim (Bool-cases (x == y)) [
  | inl same ↦
      let e : x ≡ y = ground arith in
      rw (same, e) (behind y s1 s2 _ (strcmp-Compared s1 s2 a.1 b.1))
  | inr other ↦ rw other (apart x y s1 s2 other)
]

-- strncmp compares the first `n` characters as strcmp compares whole strings.
pub strncmp-strcmp : (n : ℕ) (s1 s2 : List ℕ) → strncmp s1 s2 n ≡ strcmp (take n s1) (take n s2)
unfolding strncmp strcmp
strncmp-strcmp zero s1 s2 = refl
strncmp-strcmp (suc n) [] [] = refl
strncmp-strcmp (suc n) [] (y ∷ s2) = refl
strncmp-strcmp (suc n) (x ∷ s1) [] = refl
strncmp-strcmp (suc n) (x ∷ s1) (y ∷ s2) = rw (strncmp-strcmp n s1 s2)
