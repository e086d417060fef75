-- ===== src/Klib/Fmt/Args.antt =====
-- The arguments of vstrfmt in klib/string.c. An argument is the value that was passed: `int`, `long`,
-- `size_t` and pointers are words of 32 bits on ARM, `long long` has 64. `none` is a `va_arg` of a type
-- that the next argument does not have, or one behind the last argument, which C leaves undefined.
use zuzu.Base.{ℕ, ◌%◌, ◌^◌, Option, none, some, ◌>>=◌, List, ◌∷◌}
use zuzu.Base.Int.{ℤ, to_signed}

-- `F` is the type of doubles, `none` in `text` a null pointer.
pub data Arg (F : Type 0) : Type 0 where
  word : ℕ → Arg F
  wide : ℕ → Arg F
  text : Option (List ℕ) → Arg F
  real : F → Arg F

pub data Length : Type 0 where
  len_none : Length
  len_hh : Length
  len_h : Length
  len_l : Length
  len_ll : Length
  len_z : Length

module _ {F : Type 0} where
  abbrev pub take_word : List (Arg F) → Option (ℕ × List (Arg F))
  take_word (word w ∷ args) = some (w % 2 ^ 32, args)
  take_word _ = none

  abbrev pub take_wide : List (Arg F) → Option (ℕ × List (Arg F))
  take_wide (wide w ∷ args) = some (w % 2 ^ 64, args)
  take_wide _ = none

  abbrev pub take_text : List (Arg F) → Option (Option (List ℕ) × List (Arg F))
  take_text (text s ∷ args) = some (s, args)
  take_text _ = none

  abbrev pub take_real : List (Arg F) → Option (F × List (Arg F))
  take_real (real v ∷ args) = some (v, args)
  take_real _ = none

  unfoldable pub narrow : ℕ → ℕ × List (Arg F) → Option (ℕ × List (Arg F))
  narrow bits r = some (r.0 % 2 ^ bits, r.1)

  unfoldable pub signed : ℕ → ℕ × List (Arg F) → Option (ℤ × List (Arg F))
  signed bits r = some (to_signed bits r.0, r.1)

  unfoldable pub get_unsigned_arg : List (Arg F) → Length → Option (ℕ × List (Arg F))
  get_unsigned_arg args len_hh = do r ← take_word args; narrow 8 r
  get_unsigned_arg args len_h = do r ← take_word args; narrow 16 r
  get_unsigned_arg args len_l = take_word args
  get_unsigned_arg args len_ll = take_wide args
  get_unsigned_arg args len_z = take_word args
  get_unsigned_arg args len_none = take_word args

  unfoldable pub get_signed_arg : List (Arg F) → Length → Option (ℤ × List (Arg F))
  get_signed_arg args len_hh = do r ← take_word args; signed 8 r
  get_signed_arg args len_h = do r ← take_word args; signed 16 r
  get_signed_arg args len_l = do r ← take_word args; signed 32 r
  get_signed_arg args len_ll = do r ← take_wide args; signed 64 r
  get_signed_arg args len_z = do r ← take_word args; signed 32 r
  get_signed_arg args len_none = do r ← take_word args; signed 32 r
