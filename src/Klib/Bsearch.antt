-- ===== src/Klib/Bsearch.antt =====
-- klib/bsearch.c. The array and the comparator enter as one function: `at i` is what `compar`
-- returns on the key and element `i`. The result is the index of the element found.
use zuzu.Base.{
  ℕ, zero, suc, ◌+◌, ◌/◌, ◌%◌, ◌^◌, ◌≤◌, ◌<◌, ◌≡◌, ◌≢◌, refl, ◌⊎◌, Option, none, some, arith, ltb,
  if◌then◌else◌, inl, inr, Bool-cases, ◌-◌,
}
use native.Mathlib.Decide.{ℕ_discrete, dec_lt}

-- The sign of a comparator's result.
pub data Cmp : Type 0 where
  less equal greater : Cmp

-- `lo + hi` is a `size_t` of 32 bits. `none` is NULL.
unfoldable pub bsearch_loop : (ℕ → Cmp) → ℕ → ℕ → ℕ → Option ℕ
bsearch_loop at zero lo hi = none
bsearch_loop at (suc fuel) lo hi =
    let mid = (lo + hi) % 2 ^ 32 / 2 in
    let left = bsearch_loop at fuel lo mid in
    let right = bsearch_loop at fuel (mid + 1) hi in
    if ltb lo hi then (elim (at mid) [ equal ↦ some mid | less ↦ left | greater ↦ right ]) else none

-- Each round shortens the range, so one round more than there are elements is enough.
unfoldable pub bsearch : (ℕ → Cmp) → ℕ → Option ℕ
unfolding bsearch_loop
bsearch at nmemb = bsearch_loop at (suc nmemb) 0 nmemb

Cmp-cases : (c : Cmp) → (c ≡ less) ⊎ (c ≡ equal) ⊎ (c ≡ greater)
Cmp-cases less = inl refl
Cmp-cases equal = inr (inl refl)
Cmp-cases greater = inr (inr refl)

module _ (at : ℕ → Cmp) (n : ℕ) where
  -- The elements are in order: the key is below all that follow an element it is below, and above
  -- all that precede an element it is above.
  pub record IsOrdered : Type 0 where
    pub up : (i j : ℕ) → i < j → j < n → at i ≡ less → at j ≡ less
    pub down : (i j : ℕ) → i < j → j < n → at j ≡ greater → at i ≡ greater

  -- What a search of an array that is in order returns.
  pub data Searched : Option ℕ → Type 0 where
    hit : {i : ℕ} → i < n → at i ≡ equal → Searched (some i)
    miss : ((i : ℕ) → i < n → at i ≢ equal) → Searched none

  module _ (ord : IsOrdered) (small : n < 2 ^ 31) where
    bsearch_loop-Searched :
        (fuel lo hi : ℕ)
        → hi - lo < fuel
        → hi ≤ n
        → ((i : ℕ) → i < lo → at i ≡ greater)
        → ((i : ℕ) → hi ≤ i → i < n → at i ≡ less)
        → Searched (bsearch_loop at fuel lo hi)
    unfolding bsearch_loop
    bsearch_loop-Searched zero lo hi f le below above = absurd (omega arith)
    bsearch_loop-Searched (suc fuel) lo hi f le below above = elim (Bool-cases (ltb lo hi)) [
      | inr done ↦ rw done (
          miss λ i h e. elim (dec_lt i lo) [
            | yes p ↦ cc (below i p)
            | no p ↦ cc (above i (ground arith) h)
          ])
      | inl more ↦
          let mid = (lo + hi) % 2 ^ 32 / 2 in
          let inside : (lo ≤ mid) × (mid < hi) = ground arith in
          rw more (elim (Cmp-cases (at mid)) [
            | inl e ↦ rw e (
                bsearch_loop-Searched fuel lo mid (omega arith) (omega arith) below λ i h k.
                  elim (ℕ_discrete i mid) [
                    | yes q ↦ rw q e
                    | no q ↦ ord.up mid i (omega arith) k e
                  ])
            | inr (inl e) ↦ rw e (hit (omega arith) e)
            | inr (inr e) ↦ rw e (
                bsearch_loop-Searched fuel (mid + 1) hi (omega arith) le
                  (λ i h. elim (ℕ_discrete i mid) [
                    | yes q ↦ rw q e
                    | no q ↦ ord.down i mid (omega arith) (omega arith) e
                  ])
                  above)
          ])
    ]

  -- `bsearch` of an ordered array of fewer than 2^31 elements returns an element that compares
  -- equal to the key, and NULL only if there is none.
  pub bsearch-Searched : IsOrdered → n < 2 ^ 31 → Searched (bsearch at n)
  unfolding bsearch
  bsearch-Searched ord small =
      bsearch_loop-Searched ord small (suc n) 0 n (omega arith) (omega arith)
        (λ i h. absurd (omega arith)) (λ i h k. absurd (omega arith))
