-- ===== src/Klib/Fmt/Bounded.antt =====
-- Bounded formatted output, klib/snprintf.c: vstrfmt with a sink that stores a character if it fits.
use zuzu.Base.{
  ℕ, ◌+◌, ◌-◌, ◌%◌, ◌^◌, ◌>>=◌, Option, none, some, List, [], ◌∷◌, ltb, if◌then◌else◌, length, set,
}
use zuzu.Base.Int.{ℤ, to_signed}
use zuzu.Klib.Fmt.Args.{Arg}
use zuzu.Klib.Fmt.Double.{Doubles}
use zuzu.Klib.Fmt.Loop.{Outcome, printed, undefined, out_of_fuel, vstrfmt}

-- snprintf_ctx_t. A buffer is the bytes from its start on; `none` is a null pointer.
pub record Context : Type 0 where
  pub buf : Option (List ℕ)
  pub pos : ℕ
  pub max : ℕ

-- A store; `none` is one past the end of the buffer.
abbrev pub store_byte : List ℕ → ℕ → ℕ → Option (List ℕ)
store_byte buf i c = if ltb i (length buf) then some (set buf i c) else none

-- s->pos++ of a size_t, a word of 32 bits.
abbrev pub next_pos : ℕ → ℕ
next_pos pos = (pos + 1) % 2 ^ 32

abbrev pub kept : Context → Option (List ℕ) → Option Context
kept s none = none
kept s (some buf) = some (record s { buf = some buf; pos = next_pos s.pos })

abbrev pub put_char : Context → ℕ → Option (List ℕ) → Option Context
put_char s c none = some (record s { pos = next_pos s.pos })
put_char s c (some buf) = kept s (store_byte buf s.pos c)

unfoldable pub snprintf_outc : Context → ℕ → Option Context
snprintf_outc s c =
    if ltb s.pos s.max then put_char s c s.buf else some (record s { pos = next_pos s.pos })

-- The sink, called for each character in order.
unfoldable pub emit_all : Context → List ℕ → Option Context
emit_all s [] = some s
emit_all s (c ∷ out) = do t ← snprintf_outc s c; emit_all t out

-- The buffer after the call with the value returned, the count cast to int. `overrun` is a store past the end of the buffer.
pub data Filled : Type 0 where
  filled : Option (List ℕ) → ℤ → Filled
  overrun : Filled
  failed : Outcome → Filled

abbrev pub start : Option (List ℕ) → ℕ → Context
start buf size = record { buf = (if ltb 0 size then buf else none); pos = 0; max = size - 1 }

abbrev pub terminated : ℕ → Option (List ℕ) → Filled
terminated pos none = overrun
terminated pos (some buf) = filled (some buf) (to_signed 32 pos)

-- A buffer that the sink does not see, null or of size 0, is as it was.
abbrev pub end_text : Option (List ℕ) → ℕ → ℕ → Option (List ℕ) → Filled
end_text given size pos none = filled given (to_signed 32 pos)
end_text given size pos (some buf) =
    terminated pos (store_byte buf (if ltb pos (size - 1) then pos else size - 1) 0)

unfoldable pub terminate : Option (List ℕ) → ℕ → Option Context → Filled
terminate given size none = overrun
terminate given size (some s) = end_text given size s.pos s.buf

unfoldable pub fill : Option (List ℕ) → ℕ → Outcome → Filled
fill buf size (printed out) = terminate buf size (emit_all (start buf size) out)
fill buf size undefined = failed undefined
fill buf size out_of_fuel = failed out_of_fuel

unfoldable pub vsnprintf :
    (M : Doubles) → Option (List ℕ) → ℕ → List ℕ → List (Arg M.Carrier) → Filled
vsnprintf M buf size fmt args = fill buf size (vstrfmt M fmt args)
