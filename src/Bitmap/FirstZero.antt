-- ===== src/Bitmap/FirstZero.antt =====
-- `BitmapFindFirstZero` returns the lowest clear bit, and -1 exactly when there is none.
use zuzu.Base.Bits.{
  test_bit, ctz, complement, low_bits, IsLowestClear, ctz-IsLowestClear, test_bit_of_low_bits,
  test_bit-ones, low_bits_self,
}
use native.Mathlib.Decide.{dec_lt}
use mathlib.Core.Path.{subst}
use zuzu.Base.{
  ℕ, zero, suc, ◌+◌, ◌*◌, ◌/◌, ◌%◌, ◌^◌, ◌<◌, ◌≤◌, ◌-◌, ◌≡◌, ap, ◌∙◌, true, false, Option, none,
  some, List, arith, ltb, ◌==◌, get_or, inl, inr, Bool-cases,
}
use zuzu.Bitmap.{test, find_full, find_rest, as_int, find_first_zero}

-- Every word of the array fits in 32 bits.
abbrev pub Words32 : List ℕ → Type 0
Words32 words = (w : ℕ) → get_or words w 0 < 2 ^ 32

-- What the search returns about the bits in `[lo, hi)`.
pub data Found (words : List ℕ) (lo hi : ℕ) : Option ℕ → Type 0 where
  full : ((j : ℕ) → lo ≤ j → j < hi → test 32 words j ≡ true) → Found words lo hi none
  clear :
      (i : ℕ)
      → lo ≤ i
      → i < hi
      → test 32 words i ≡ false
      → ((j : ℕ) → lo ≤ j → j < i → test 32 words j ≡ true)
      → Found words lo hi (some i)

module _ (words : List ℕ) (small : Words32 words) where
  -- The bits of word `w`.
  test_word :
      (w j : ℕ)
      → w * 32 ≤ j
      → j < (w + 1) * 32
      → test 32 words j ≡ test_bit (get_or words w 0) (j - w * 32)
  unfolding test
  test_word w j lo hi =
      let q : j / 32 ≡ w = omega arith in let r : j % 32 ≡ j - w * 32 = omega arith in rw (q, r)

  word_ones :
      (w j : ℕ)
      → get_or words w 0 ≡ 2 ^ 32 - 1
      → w * 32 ≤ j
      → j < (w + 1) * 32
      → test 32 words j ≡ true
  word_ones w j e lo hi =
      test_word w j lo hi
      ∙ ap (λ v. test_bit v (j - w * 32)) e
      ∙ test_bit-ones 32 (j - w * 32) (omega arith)

  -- The lowest clear bit of the first `r` bits of word `w`.
  word_clear :
      (w r k : ℕ)
      → r ≤ 32
      → IsLowestClear r (get_or words w 0) k
      → Found words (w * 32) (w * 32 + r) (some (w * 32 + k))
  word_clear w r k h l =
      let at : (j : ℕ) → j < 32 → test 32 words (w * 32 + j) ≡ test_bit (get_or words w 0) j =
        λ j lt.
          test_word w (w * 32 + j) (omega arith) (omega arith)
          ∙ ap (test_bit (get_or words w 0)) (omega arith) in
      clear (w * 32 + k) (omega arith) (omega (arith, l.within))
        (at k (omega (arith, l.within)) ∙ l.clear)
        λ j lo hi. test_word w j lo (omega (arith, l.within)) ∙ l.below (j - w * 32) (omega arith)

  extend :
      {lo mid hi : ℕ} {o : Option ℕ}
      → lo ≤ mid
      → ((j : ℕ) → lo ≤ j → j < mid → test 32 words j ≡ true)
      → Found words mid hi o
      → Found words lo hi o
  extend {mid} le ones (full all) =
      full λ j lo hi. elim (dec_lt j mid) [ yes p ↦ ones j lo p | no p ↦ all j (omega arith) hi ]
  extend {mid} le ones (clear i lo hi z all) =
      clear i (omega arith) hi z
        λ j l h. elim (dec_lt j mid) [ yes p ↦ ones j l p | no p ↦ all j (omega arith) h ]

  widen :
      {lo mid hi : ℕ} {i : ℕ} → mid ≤ hi → Found words lo mid (some i) → Found words lo hi (some i)
  widen le (clear i lo hi z all) = clear i lo (omega arith) z all

  find_full-Found : (n w : ℕ) → Found words (w * 32) ((w + n) * 32) (find_full words n w)
  unfolding find_full
  find_full-Found zero w = full λ j lo hi. absurd (omega arith)
  find_full-Found (suc n) w = elim (Bool-cases (get_or words w 0 == 2 ^ 32 - 1)) [
    | inl ones ↦ rw ones (
        extend (omega arith) (λ j lo hi. word_ones w j (ground arith) lo hi)
          (subst (λ t. Found words ((w + 1) * 32) t (find_full words n (w + 1))) (omega arith)
            (find_full-Found n (w + 1))))
    | inr hole ↦
        let word = get_or words w 0 in
        let e : low_bits (complement 32 word) 32 ≡ complement 32 word =
          low_bits_self 32 (complement 32 word) (omega arith) in
        let lowest =
          ctz-IsLowestClear 32 32 word (omega arith) (small w) (rw e (ground (arith, small w))) in
        rw hole (
          widen (omega arith)
            (word_clear w 32 (ctz 32 (complement 32 word)) (omega arith) (rw e at lowest)))
  ]

  find_rest-Found : (w r : ℕ) → r < 32 → Found words (w * 32) (w * 32 + r) (find_rest words w r)
  unfolding find_rest
  find_rest-Found w zero h = full λ j lo hi. absurd (omega arith)
  find_rest-Found w (suc r) h =
      let word = get_or words w 0 in
      let free = low_bits (complement 32 word) (suc r) in
      elim (Bool-cases (free == 0)) [
        | inl none_free ↦ rw none_free (
            full λ j lo hi.
              test_word w j lo (omega arith)
              ∙ test_bit_of_low_bits 32 (suc r) word (j - w * 32) (omega arith) (small w)
                  (ground arith) (omega arith))
        | inr some_free ↦ rw some_free (
            word_clear w (suc r) (ctz 32 free) (omega arith)
              (ctz-IsLowestClear 32 (suc r) word (omega arith) (small w) (ground arith)))
      ]

  either_part :
      (nbits : ℕ) (o : Option ℕ)
      → Found words 0 (nbits / 32 * 32) o
      → Found words 0 nbits
          (elim o [ none ↦ find_rest words (nbits / 32) (nbits % 32) | some i ↦ some i ])
  either_part nbits none (full ones) = extend (omega arith) ones (
      subst (λ t. Found words (nbits / 32 * 32) t (find_rest words (nbits / 32) (nbits % 32)))
        (omega arith) (find_rest-Found (nbits / 32) (nbits % 32) (omega arith)))
  either_part nbits (some i) f = widen (omega arith) f

  as_int-Found :
      (nbits : ℕ) (o : Option ℕ)
      → nbits ≤ 2 ^ 31
      → Found words 0 nbits o
      → Found words 0 nbits (as_int o)
  as_int-Found nbits none few f = f
  as_int-Found nbits (some i) few (clear _ lo hi z all) =
      let same : i % 2 ^ 32 ≡ i = omega arith in
      let fits : ltb i (2 ^ 31) ≡ true = ground arith in rw (same, fits) (clear i lo hi z all)

  -- On an array of 32-bit words and for at most 2^31 bits, so that each index is an int,
  -- `BitmapFindFirstZero` returns the lowest clear bit below `nbits`, and -1 exactly when all of them
  -- are set, whether or not the last word is a whole one.
  pub find_first_zero-Found :
      (nbits : ℕ) → nbits ≤ 2 ^ 31 → Found words 0 nbits (find_first_zero words nbits)
  unfolding find_first_zero
  find_first_zero-Found nbits few = as_int-Found nbits _ few (
      either_part nbits (find_full words (nbits / 32) 0) (
        subst (λ t. Found words 0 t (find_full words (nbits / 32) 0)) (omega arith)
          (subst (λ t. Found words t ((0 + nbits / 32) * 32) (find_full words (nbits / 32) 0))
            (omega arith) (find_full-Found (nbits / 32) 0))))
