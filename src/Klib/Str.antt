-- ===== src/Klib/Str.antt =====
-- The string functions of klib/string.c. A C string is the list of its characters before the NUL, and
-- a position in it is an index. Characters are unsigned, as they are on ARM.
use zuzu.Base.{ℕ, zero, suc, ◌+◌, Option, none, some, List, [], ◌∷◌, ◌==◌, if◌then◌else◌}
use zuzu.Base.Int.{ℤ, sub_ℕ}
use mathlib.Core.Option

unfoldable pub strlen : List ℕ → ℕ
strlen [] = 0
strlen (c ∷ s) = suc (strlen s)

unfoldable pub strnlen : List ℕ → ℕ → ℕ
strnlen s zero = 0
strnlen [] (suc maxlen) = 0
strnlen (c ∷ s) (suc maxlen) = suc (strnlen s maxlen)

unfoldable pub strcmp : List ℕ → List ℕ → ℤ
strcmp [] [] = sub_ℕ 0 0
strcmp [] (y ∷ s2) = sub_ℕ 0 y
strcmp (x ∷ s1) [] = sub_ℕ x 0
strcmp (x ∷ s1) (y ∷ s2) = if x == y then strcmp s1 s2 else sub_ℕ x y

-- The count `n - compared` falls.
unfoldable pub strncmp : List ℕ → List ℕ → ℕ → ℤ
strncmp s1 s2 zero = sub_ℕ 0 0
strncmp [] [] (suc n) = sub_ℕ 0 0
strncmp [] (y ∷ s2) (suc n) = sub_ℕ 0 y
strncmp (x ∷ s1) [] (suc n) = sub_ℕ x 0
strncmp (x ∷ s1) (y ∷ s2) (suc n) = if x == y then strncmp s1 s2 n else sub_ℕ x y

-- The bytes of a buffer after a copy into it. `none` is a write past its end.
unfoldable pub strcpy : List ℕ → List ℕ → Option (List ℕ)
strcpy [] src = none
strcpy (d ∷ dest) [] = some (0 ∷ dest)
strcpy (d ∷ dest) (c ∷ src) = Option.map (λ r. c ∷ r) (strcpy dest src)

unfoldable pub strncpy : List ℕ → List ℕ → ℕ → Option (List ℕ)
strncpy dest src zero = some dest
strncpy [] src (suc n) = none
strncpy (d ∷ dest) [] (suc n) = Option.map (λ r. 0 ∷ r) (strncpy dest [] n)
strncpy (d ∷ dest) (c ∷ src) (suc n) = Option.map (λ r. c ∷ r) (strncpy dest src n)

unfoldable pub strchr : List ℕ → ℕ → Option ℕ
strchr [] c = none
strchr (x ∷ s) c = if x == c then some 0 else Option.map suc (strchr s c)

-- `last` from position `i` on; the terminator is tested too.
unfoldable pub strrchr_from : ℕ → List ℕ → ℕ → Option ℕ → Option ℕ
strrchr_from i [] c last = if 0 == c then some i else last
strrchr_from i (x ∷ s) c last = strrchr_from (i + 1) s c (if x == c then some i else last)

unfoldable pub strrchr : List ℕ → ℕ → Option ℕ
strrchr s c = strrchr_from 0 s c none

-- The C string at the start of a buffer; `none` where the buffer has no NUL.
unfoldable pub c_string : List ℕ → Option (List ℕ)
c_string [] = none
c_string (x ∷ buf) = if x == 0 then some [] else Option.map (λ s. x ∷ s) (c_string buf)
