-- ===== src/Bitmap.antt =====
-- include/bitmap.h: bitmaps over arrays of words. `W` is the number of bits of a word: 32 for the
-- functions of bitmap.h, 8 for the byte bitmaps that the frame and ASID allocators write by hand.
-- An access out of the array reads 0 and writes nothing.
pub mod FirstZero
use native.Mathlib.Nat.{div-add-mod}
use zuzu.Base.Bits.{test_bit, set_bit, clear_bit, test_bit-set_bit, test_bit-clear_bit}
use zuzu.Base.Bits.{ctz, complement, low_bits}
use zuzu.Base.{
  ℕ, zero, suc, ◌+◌, ◌*◌, ◌/◌, ◌%◌, ◌^◌, ◌<◌, ◌-◌, ◌≡◌, sym, ap, ◌∙◌, Bool, true, false, Option,
  none, some, List, arith, ltb, ◌==◌, if◌then◌else◌, length, get_or, set, get_or-set_self,
  get_or-set_ne, length-set,
}

module _ (W : ℕ) where
  unfoldable pub test : List ℕ → ℕ → Bool
  test words i = test_bit (get_or words (i / W) 0) (i % W)

  unfoldable pub put : List ℕ → ℕ → List ℕ
  put words i = set words (i / W) (set_bit (get_or words (i / W) 0) (i % W))

  unfoldable pub clr : List ℕ → ℕ → List ℕ
  clr words i = set words (i / W) (clear_bit (get_or words (i / W) 0) (i % W))

  same_bit : (i j : ℕ) → i / W ≡ j / W → i % W ≡ j % W → i ≡ j
  same_bit i j p q =
      sym (div-add-mod i W)
      ∙ ap (λ t. W * t + i % W) p
      ∙ ap (λ t. W * (j / W) + t) q
      ∙ div-add-mod j W

  -- `i` lies in the array.
  abbrev pub Inside : List ℕ → ℕ → Type 0
  Inside words i = i / W < length words

  pub test-put :
      (words : List ℕ) (i j : ℕ)
      → Inside words i
      → test (put words i) j ≡ (if i == j then true else test words j)
  unfolding test put
  test-put words i j h =
      let old = get_or words (i / W) 0 in
      let new = set_bit old (i % W) in
      ground (
        arith,
        get_or-set_self words (i / W) new 0 h,
        get_or-set_ne words (i / W) (j / W) new 0,
        test_bit-set_bit old (i % W) (j % W),
        same_bit i j,
      )

  pub test-clr :
      (words : List ℕ) (i j : ℕ)
      → Inside words i
      → test (clr words i) j ≡ (if i == j then false else test words j)
  unfolding test clr
  test-clr words i j h =
      let old = get_or words (i / W) 0 in
      let new = clear_bit old (i % W) in
      ground (
        arith,
        get_or-set_self words (i / W) new 0 h,
        get_or-set_ne words (i / W) (j / W) new 0,
        test_bit-clear_bit old (i % W) (j % W),
        same_bit i j,
      )

  pub length-put : (words : List ℕ) (i : ℕ) → length (put words i) ≡ length words
  unfolding put
  length-put words i = length-set words (i / W) (set_bit (get_or words (i / W) 0) (i % W))

  pub length-clr : (words : List ℕ) (i : ℕ) → length (clr words i) ≡ length words
  unfolding clr
  length-clr words i = length-set words (i / W) (clear_bit (get_or words (i / W) 0) (i % W))

-- The scan of `BitmapFindFirstZero` over whole words: `n` words left, from word `w` on.
unfoldable pub find_full : List ℕ → ℕ → ℕ → Option ℕ
find_full words zero w = none
find_full words (suc n) w =
    let rest = find_full words n (w + 1) in
    let word = get_or words w 0 in
    if word == 2 ^ 32 - 1 then rest else some (w * 32 + ctz 32 (complement 32 word))

-- The last, partial word.
unfoldable pub find_rest : List ℕ → ℕ → ℕ → Option ℕ
find_rest words full zero = none
find_rest words full (suc r) =
    let free = low_bits (complement 32 (get_or words full 0)) (suc r) in
    if free == 0 then none else some (full * 32 + ctz 32 free)

-- The cast of the index to int; `none` is a negative result, -1 or what an index from 2^31 on becomes.
abbrev pub as_int : Option ℕ → Option ℕ
as_int none = none
as_int (some i) = if ltb (i % 2 ^ 32) (2 ^ 31) then some (i % 2 ^ 32) else none

unfoldable pub find_first_zero : List ℕ → ℕ → Option ℕ
unfolding find_full find_rest
find_first_zero words nbits = as_int (elim (find_full words (nbits / 32) 0) [
  | none ↦ find_rest words (nbits / 32) (nbits % 32)
  | some i ↦ some i
])
