-- ===== src/Klib/Digits.antt =====
-- The conversion of numbers to text of klib/string.c, utoa_ull.
use zuzu.Base.{
  ℕ, zero, suc, ◌/◌, ◌%◌, Bool, ◌||◌, List, [], ◌∷◌, ltb, ◌==◌, if◌then◌else◌, reverse, get_or,
}
use zuzu.Klib.Ascii.{zero_digit, question}

abbrev pub digs_lo : List ℕ
digs_lo = 48 ∷ 49 ∷ 50 ∷ 51 ∷ 52 ∷ 53 ∷ 54 ∷ 55 ∷ 56 ∷ 57 ∷ 97 ∷ 98 ∷ 99 ∷ 100 ∷ 101 ∷ 102 ∷ []

abbrev pub digs_hi : List ℕ
digs_hi = 48 ∷ 49 ∷ 50 ∷ 51 ∷ 52 ∷ 53 ∷ 54 ∷ 55 ∷ 56 ∷ 57 ∷ 65 ∷ 66 ∷ 67 ∷ 68 ∷ 69 ∷ 70 ∷ []

-- The character of a digit below 16.
unfoldable pub digs : Bool → ℕ → ℕ
digs uppercase d = if uppercase then get_or digs_hi d 0 else get_or digs_lo d 0

-- The digits of `v`, the lowest first. Each turn divides `v` by the base, so that `fuel` turns are
-- enough below 2 ^ fuel.
unfoldable pub digit_loop : ℕ → ℕ → Bool → ℕ → List ℕ
digit_loop zero base uppercase v = []
digit_loop (suc fuel) base uppercase v =
    let rest = digit_loop fuel base uppercase (v / base) in
    if v == 0 then [] else digs uppercase (v % base) ∷ rest

abbrev pub word_turns : ℕ
word_turns = 64

-- tmp[0 .. n) for a base that the code supports.
unfoldable pub digits_of : ℕ → Bool → ℕ → List ℕ
digits_of base uppercase v =
    if v == 0 then zero_digit ∷ [] else digit_loop word_turns base uppercase v

-- A base below 2 counts as 10.
unfoldable pub real_base : ℕ → ℕ
real_base base = if ltb base 2 then 10 else base

unfoldable pub supports : ℕ → Bool
supports base = base == 16 || base == 8 || base == 2 || base == 10

unfoldable pub utoa_ull : ℕ → ℕ → Bool → List ℕ
utoa_ull v base uppercase =
    if supports (real_base base)
    then reverse (digits_of (real_base base) uppercase v)
    else (question ∷ [])
