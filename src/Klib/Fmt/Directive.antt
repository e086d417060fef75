-- ===== src/Klib/Fmt/Directive.antt =====
-- The conversion specifications of vstrfmt in klib/string.c, from behind the '%' on: flags, width,
-- precision, length modifier and conversion character. `none` is undefined behaviour: an argument that
-- is not there, or a number that does not fit `int`.
use zuzu.Base.{
  ℕ, ◌+◌, ◌-◌, ◌*◌, ◌^◌, Bool, true, false, ◌>>=◌, ◌&&◌, Option, none, some, List, [], ◌∷◌, ltb,
  leb, ◌==◌, if◌then◌else◌,
}
use zuzu.Base.Int.{pos, negsuc, to_signed}
use zuzu.Klib.Ascii.{
  minus_sign, zero_digit, plus_sign, blank, hash, star, dot, nine, low_h, low_l, low_z,
}
use zuzu.Klib.Fmt.Args.{Arg, Length, len_none, len_hh, len_h, len_l, len_ll, len_z, take_word}

-- left, zero, plus, space and alt.
pub record Flags : Type 0 where
  pub left : Bool
  pub zero_pad : Bool
  pub plus : Bool
  pub space : Bool
  pub alt : Bool

abbrev pub no_flags : Flags
no_flags = record { left = false; zero_pad = false; plus = false; space = false; alt = false }

abbrev pub flag_of : Flags → ℕ → Option Flags
flag_of f c =
    if c == minus_sign
    then some (record f { left = true })
    else if c == zero_digit
    then some (record f { zero_pad = true })
    else if c == plus_sign
    then some (record f { plus = true })
    else if c == blank
    then some (record f { space = true })
    else if c == hash
    then some (record f { alt = true })
    else none

-- Goes on with the new flags where the character is one.
abbrev pub go_on : Flags × List ℕ → (Flags → Flags × List ℕ) → Option Flags → Flags × List ℕ
go_on stop next none = stop
go_on stop next (some g) = next g

unfoldable pub parse_flags : Flags → List ℕ → Flags × List ℕ
parse_flags f [] = (f, [])
parse_flags f (c ∷ s) = go_on (f, c ∷ s) (λ g. parse_flags g s) (flag_of f c)

unfoldable pub is_digit : ℕ → Bool
is_digit c = leb zero_digit c && leb c nine

unfoldable pub digits_from : ℕ → List ℕ → ℕ × List ℕ
digits_from v [] = (v, [])
digits_from v (c ∷ s) =
    let rest = digits_from (v * 10 + (c - zero_digit)) s in if is_digit c then rest else (v, c ∷ s)

-- A value that `int` does not hold is undefined.
unfoldable pub parse_int : List ℕ → Option (ℕ × List ℕ)
parse_int s = let r = digits_from 0 s in if ltb r.0 (2 ^ 31) then some r else none

-- A number of the specification with what is left of the format and the arguments.
pub record Parsed (F A : Type 0) : Type 0 where
  pub got : A
  pub fmt : List ℕ
  pub args : List (Arg F)

module _ {F : Type 0} where
  -- The width with the flag `left`, which a negative argument sets.
  unfoldable pub star_width : Bool → List ℕ → ℕ × List (Arg F) → Option (Parsed F (Bool × ℕ))
  star_width left s (w, args) = elim (to_signed 32 w) [
    | pos n ↦ some (record { got = (left, n); fmt = s; args = args })
    | negsuc n ↦
        if ltb n (2 ^ 31 - 1)
        then some (record { got = (true, n + 1); fmt = s; args = args })
        else none
  ]

  unfoldable pub digit_width : Bool → List (Arg F) → ℕ × List ℕ → Option (Parsed F (Bool × ℕ))
  digit_width left args (n, s) = some (record { got = (left, n); fmt = s; args = args })

  unfoldable pub parse_width : Bool → List ℕ → List (Arg F) → Option (Parsed F (Bool × ℕ))
  parse_width left [] args = some (record { got = (left, 0); fmt = []; args = args })
  parse_width left (c ∷ s) args =
      if c == star
      then (do r ← take_word args; star_width left s r)
      else if is_digit c
      then (do r ← parse_int (c ∷ s); digit_width left args r)
      else some (record { got = (left, 0); fmt = c ∷ s; args = args })

  -- A precision of -1 is `none`.
  unfoldable pub star_prec : List ℕ → ℕ × List (Arg F) → Option (Parsed F (Option ℕ))
  star_prec s (w, args) = elim (to_signed 32 w) [
    | pos n ↦ some (record { got = some n; fmt = s; args = args })
    | negsuc n ↦ some (record { got = none; fmt = s; args = args })
  ]

  unfoldable pub digit_prec : List (Arg F) → ℕ × List ℕ → Option (Parsed F (Option ℕ))
  digit_prec args (n, s) = some (record { got = some n; fmt = s; args = args })

  unfoldable pub prec_behind_dot : List ℕ → List (Arg F) → Option (Parsed F (Option ℕ))
  prec_behind_dot [] args = some (record { got = some 0; fmt = []; args = args })
  prec_behind_dot (c ∷ s) args =
      if c == star
      then (do r ← take_word args; star_prec s r)
      else if is_digit c
      then (do r ← parse_int (c ∷ s); digit_prec args r)
      else some (record { got = some 0; fmt = c ∷ s; args = args })

  unfoldable pub parse_prec : List ℕ → List (Arg F) → Option (Parsed F (Option ℕ))
  parse_prec [] args = some (record { got = none; fmt = []; args = args })
  parse_prec (c ∷ s) args =
      if c == dot
      then prec_behind_dot s args
      else some (record { got = none; fmt = c ∷ s; args = args })

-- A second `h` or `l` behind the first.
unfoldable pub doubled : ℕ → Length → Length → List ℕ → Length × List ℕ
doubled c one two [] = (one, [])
doubled c one two (d ∷ s) = if d == c then (two, s) else (one, d ∷ s)

unfoldable pub parse_len : List ℕ → Length × List ℕ
parse_len [] = (len_none, [])
parse_len (c ∷ s) =
    if c == low_h
    then doubled low_h len_h len_hh s
    else if c == low_l
    then doubled low_l len_l len_ll s
    else if c == low_z
    then (len_z, s)
    else (len_none, c ∷ s)

-- A specification up to its conversion character; its precision switches the flag '0' off.
pub record Spec : Type 0 where
  pub flags : Flags
  pub width : ℕ
  pub prec : Option ℕ
  pub len : Length

abbrev pub zero_kept : Option ℕ → Bool → Bool
zero_kept none z = z
zero_kept (some p) z = false

module _ {F : Type 0} where
  unfoldable pub finish : Flags → Bool × ℕ → Parsed F (Option ℕ) → Option (Parsed F Spec)
  finish f lw p =
      let r = parse_len p.fmt in
      some (record {
        got = (record {
          flags = (record f { left = lw.0; zero_pad = zero_kept p.got f.zero_pad });
          width = lw.1;
          prec = p.got;
          len = r.0;
        });
        fmt = r.1;
        args = p.args;
      })

  unfoldable pub with_prec : Flags → Parsed F (Bool × ℕ) → Option (Parsed F Spec)
  with_prec f w = do p ← parse_prec w.fmt w.args; finish f w.got p

  unfoldable pub parse_spec : List ℕ → List (Arg F) → Option (Parsed F Spec)
  parse_spec s args =
      let r = parse_flags no_flags s in do w ← parse_width (r.0).left r.1 args; with_prec r.0 w
