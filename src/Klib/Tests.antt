-- ===== src/Klib/Tests.antt =====
-- The theorems of `Klib` on small strings and numbers.
use zuzu.Base.{ℕ, ◌≡◌, refl, List, [], ◌∷◌, true, arith}
use zuzu.Klib.Str.{strcmp, strncmp}
use zuzu.Klib.Compare.{strncmp-strcmp}
use zuzu.Base.{take}
use zuzu.Klib.Mem.{Moved, memmove, memmove-Moved}
use zuzu.Klib.Digits.{supports, real_base, utoa_ull}
use zuzu.Klib.Numeral.{IsNumeral, utoa_ull-IsNumeral}

-- "abc" and "abd"
abbrev abc : List ℕ
abc = 97 ∷ 98 ∷ 99 ∷ []

abbrev abd : List ℕ
abd = 97 ∷ 98 ∷ 100 ∷ []

strncmp-strcmp_example : strncmp abc abd 2 ≡ strcmp (take 2 abc) (take 2 abd)
strncmp-strcmp_example = strncmp-strcmp 2 abc abd

utoa_ull-IsNumeral_example : IsNumeral (real_base 16) 48879 (utoa_ull 48879 16 true)
unfolding supports real_base
utoa_ull-IsNumeral_example = utoa_ull-IsNumeral 48879 16 true (omega arith) refl

-- The four bytes move up by one, over themselves.
memmove-Moved_example :
    Moved (1 ∷ 2 ∷ 3 ∷ 4 ∷ 5 ∷ []) 1 0 4 (memmove (1 ∷ 2 ∷ 3 ∷ 4 ∷ 5 ∷ []) 1 0 4)
memmove-Moved_example = memmove-Moved (1 ∷ 2 ∷ 3 ∷ 4 ∷ 5 ∷ []) 1 0 4 (omega arith) (omega arith)

-- "BEEF"
beef : utoa_ull 48879 16 true ≡ 66 ∷ 69 ∷ 69 ∷ 70 ∷ []
unfolding supports real_base utoa_ull zuzu.Klib.Digits.digits_of zuzu.Klib.Digits.digit_loop
    zuzu.Klib.Digits.digs
beef = refl
