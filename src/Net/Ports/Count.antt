-- ===== src/Net/Ports/Count.antt =====
-- How often a port stands in the table of held ports.
use zuzu.Base.{
  ℕ, zero, suc, ◌≤◌, ◌<◌, ◌≡◌, refl, sym, ap, ◌≢◌, inl, inr, true, false, Option, none, some, List,
  [], ◌∷◌, arith, ◌==◌, if◌then◌else◌, Bool-cases,
}
use zuzu.Base.{length}
use mathlib.Core.Option
use zuzu.Net.Ports.{is_held, replace}

abbrev pub count : ℕ → List ℕ → ℕ
count p [] = 0
count p (h ∷ held) = if h == p then suc (count p held) else count p held

pub is_held-count : (held : List ℕ) (p : ℕ) → is_held held p ≡ false → count p held ≡ 0
unfolding is_held
is_held-count [] p h = refl
is_held-count (x ∷ held) p h = ground (arith, is_held-count held p)

pub held-count : (held : List ℕ) (p : ℕ) → is_held held p ≡ true → 0 < count p held
unfolding is_held
held-count [] p h = absurd (ground arith)
held-count (x ∷ held) p h = ground (arith, held-count held p)

-- What replacing the first `old` by `new` leaves.
pub data Replaced (held : List ℕ) (old new : ℕ) : Option (List ℕ) → Type 0 where
  missing : count old held ≡ 0 → Replaced held old new none
  replaced :
      (held' : List ℕ)
      → length held' ≡ length held
      → count old held ≡ suc (count old held')
      → count new held' ≡ suc (count new held)
      → ((q : ℕ) → q ≢ old → q ≢ new → count q held' ≡ count q held)
      → Replaced held old new (some held')

further :
    (x : ℕ) (held : List ℕ) (old new : ℕ) (r : Option (List ℕ))
    → (x == old) ≡ false
    → old ≢ new
    → Replaced held old new r
    → Replaced (x ∷ held) old new (Option.map (λ s. x ∷ s) r)
further x held old new _ h ne (missing z) = missing (rw h z)
further x held old new _ h ne (replaced held' l o n rest) =
    replaced (x ∷ held') (ap suc l) (rw h o) (ground (arith, n))
      (λ q a b. ground (arith, rest q a b))

pub replace-Replaced :
    (held : List ℕ) (old new : ℕ) → old ≢ new → Replaced held old new (replace held old new)
unfolding replace
replace-Replaced [] old new ne = missing refl
replace-Replaced (x ∷ held) old new ne = elim (Bool-cases (x == old)) [
  | inl same ↦
      rw same (replaced (new ∷ held) refl (ground arith) (ground arith) (λ q a b. ground arith))
  | inr other ↦ rw other (further x held old new _ other ne (replace-Replaced held old new ne))
]

-- Without the first `p`.
abbrev pub remove : ℕ → List ℕ → List ℕ
remove p [] = []
remove p (x ∷ xs) = if x == p then xs else x ∷ remove p xs

length-remove : (p : ℕ) (xs : List ℕ) → 0 < count p xs → length xs ≡ suc (length (remove p xs))
length-remove p [] h = absurd (omega arith)
length-remove p (x ∷ xs) h = elim (Bool-cases (x == p)) [
  | inl same ↦ rw same
  | inr other ↦ rw other (ap suc (length-remove p xs (ground arith)))
]

count-remove : (p q : ℕ) (xs : List ℕ) → p ≢ q → count q (remove p xs) ≡ count q xs
count-remove p q [] ne = refl
count-remove p q (x ∷ xs) ne = ground (arith, count-remove p q xs ne)

-- A table that has `n` different ports has `n` entries at least.
pub distinct-length :
    (f : ℕ → ℕ) (n : ℕ) (xs : List ℕ)
    → ((i j : ℕ) → i < j → j < n → f i ≢ f j)
    → ((i : ℕ) → i < n → 0 < count (f i) xs)
    → n ≤ length xs
distinct-length f zero xs d h = omega arith
distinct-length f (suc n) xs d h = omega (
  arith,
  length-remove (f n) xs (h n (omega arith)),
  distinct-length f n (remove (f n) xs) (λ i j a b. d i j a (omega arith))
      (λ i lt.
        let e = count-remove (f n) (f i) xs (λ q. d i n lt (omega arith) (sym q)) in
        omega (arith, h i (omega arith))),
)
