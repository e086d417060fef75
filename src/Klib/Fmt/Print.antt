-- ===== src/Klib/Fmt/Print.antt =====
-- What vstrfmt of klib/string.c prints of plain text and of %d.
use zuzu.Base.{
  ℕ, zero, suc, ◌+◌, ◌%◌, ◌^◌, ◌<◌, ◌≡◌, refl, false, arith, ◌≢◌, none, some, List, [], ◌∷◌, ◌++◌,
  ltb, ◌==◌, if◌then◌else◌, length, sym, ◌∙◌, ap, Bool-cases, inl, inr,
}
use mathlib.Core.List.{append-nil, append_assoc}
use native.Mathlib.Decide.{ℕ_discrete}
use zuzu.Base.Int.{ℤ, pos, negsuc, to_signed}
use zuzu.Klib.Ascii.{percent, minus_sign, low_d}
use zuzu.Klib.Digits.{supports, real_base, utoa_ull}
use zuzu.Klib.Numeral.{value, value_from, digit_value, IsNumeral, utoa_ull-IsNumeral}
use zuzu.Klib.Fmt.Args.{Arg, word, len_none, get_signed_arg, signed}
use zuzu.Klib.Fmt.Directive.{
  Spec, no_flags, parse_spec, parse_flags, parse_width, with_prec, parse_prec, parse_len, finish,
  is_digit,
}
use zuzu.Klib.Fmt.Field.{emit_repeat, number_field, signed_text, signed_field}
use zuzu.Klib.Fmt.Double.{Doubles}
use zuzu.Klib.Fmt.Loop.{
  Outcome, emitted, printed, undefined, out_of_fuel, before, convert, is_endless, turn_at, turn,
  resume, shown_turn, format_loop, vstrfmt,
}
use zuzu.Klib.Fmt.Fuel.{format_loop-fuel}

-- A text without '%'.
abbrev pub NoPercent : List ℕ → Type 0
NoPercent [] = Unit
NoPercent (c ∷ s) = (c ≢ percent) × NoPercent s

before-before : (s t : List ℕ) (o : Outcome) → before (s ++ t) o ≡ before s (before t o)
before-before s t (printed r) = ap printed (append_assoc s t r)
before-before s t undefined = refl
before-before s t out_of_fuel = refl

negative : ℕ → ℤ
negative zero = pos 0
negative (suc n) = negsuc n

-- A decimal numeral with a sign in front of negative numbers.
pub read_int : List ℕ → ℤ
read_int [] = pos 0
read_int (c ∷ s) = if c == minus_sign then negative (value 10 s) else pos (value 10 (c ∷ s))

plain_spec : Spec
plain_spec = record { flags = no_flags; width = 0; prec = none; len = len_none }

-- Without flags, width and precision a field is its sign and its digits.
number_field-plain : (sig num : List ℕ) → number_field no_flags 0 0 sig num ≡ sig ++ num
unfolding number_field emit_repeat
number_field-plain sig num =
    let e : ltb (length num + 0 + length sig) 0 ≡ false = ground arith in
    rw (e, append-nil num) refl

SmallInt : ℤ → Type 0
SmallInt (pos n) = n < 2 ^ 64
SmallInt (negsuc n) = n + 1 < 2 ^ 64

read_numeral : (n : ℕ) (s : List ℕ) → IsNumeral 10 n s → read_int s ≡ pos n
unfolding read_int value_from negative
read_numeral n [] d = absurd (omega (arith, d.some_digit))
read_numeral n (c ∷ s) d = elim (Bool-cases (c == minus_sign)) [
  | inl m ↦
      let e : c ≡ 45 = ground arith in
      let z : n ≡ 0 = elim (ℕ_discrete n 0) [
        | yes y ↦ y
        | no ne ↦ absurd (d.lead ne (ap digit_value e))
      ] in
      let v : value 10 s ≡ 0 = let eq = rw e at d.value_eq in eq ∙ z in rw (m, v, z) refl
  | inr o ↦ rw (o, d.value_eq) refl
]

read_negative : (n : ℕ) (s : List ℕ) → IsNumeral 10 (n + 1) s → read_int (minus_sign ∷ s) ≡ negsuc n
unfolding read_int negative
read_negative n s d = let e : value 10 s ≡ suc n = omega (arith, d.value_eq) in rw e refl

numeral : (n : ℕ) → n < 2 ^ 64 → IsNumeral 10 n (utoa_ull n 10 false)
unfolding supports real_base
numeral n h = utoa_ull-IsNumeral n 10 false h refl

read_signed : (v : ℤ) → SmallInt v → read_int (signed_field plain_spec v) ≡ v
unfolding signed_field signed_text plain_spec SmallInt
read_signed (pos n) h = rw (number_field-plain _ _) (read_numeral n _ (numeral n h))
read_signed (negsuc n) h = rw (number_field-plain _ _) (read_negative n _ (numeral (n + 1) h))

to_signed-SmallInt : (w : ℕ) → SmallInt (to_signed 32 w)
unfolding SmallInt
to_signed-SmallInt w = elim (Bool-cases (ltb (w % 2 ^ 32) (2 ^ 31))) [
  | inl e ↦ rw e (ground arith)
  | inr e ↦ rw e (ground arith)
]

before_nil : (o : Outcome) → before [] o ≡ o
before_nil (printed t) = refl
before_nil undefined = refl
before_nil out_of_fuel = refl

module _ (M : Doubles) where
  -- Text without '%' is printed as it stands, in front of what the rest of the format prints.
  pub vstrfmt-literal :
      (lit fmt : List ℕ) (args : List (Arg M.Carrier))
      → NoPercent lit
      → vstrfmt M (lit ++ fmt) args ≡ before lit (vstrfmt M fmt args)
  unfolding vstrfmt format_loop
  vstrfmt-literal [] fmt args h = sym (before_nil (vstrfmt M fmt args))
  vstrfmt-literal (c ∷ lit) fmt args h =
      let e : c == percent ≡ false = elim (Bool-cases (c == percent)) [
        | inl y ↦ absurd (h.0 (let e : c ≡ percent = ground arith in e))
        | inr n ↦ n
      ] in
      let ih = vstrfmt-literal lit fmt args h.1 in
      rw (e, ih) (sym (before-before (c ∷ []) lit (vstrfmt M fmt args)))

  turn_int :
      (rest : List ℕ) (w : ℕ) (args : List (Arg M.Carrier))
      → turn M (low_d ∷ rest) (word w ∷ args)
        ≡ some (emitted (signed_field plain_spec (to_signed 32 (w % 2 ^ 32))) rest args)
  unfolding turn parse_spec parse_flags parse_width with_prec parse_prec finish parse_len is_digit
      turn_at is_endless convert get_signed_arg signed shown_turn plain_spec
  turn_int rest w args = refl

  -- %d prints a text that reads back as the int that was passed, in two's complement, in front of what
  -- the rest of the format prints of the other arguments.
  pub vstrfmt-print_int :
      (rest : List ℕ) (w : ℕ) (args : List (Arg M.Carrier))
      → (text : List ℕ) × ((vstrfmt M (percent ∷ low_d ∷ rest) (word w ∷ args)
            ≡ before text (vstrfmt M rest args))
          × (read_int text ≡ to_signed 32 w))
  unfolding vstrfmt format_loop resume
  vstrfmt-print_int rest w args =
      let v = to_signed 32 (w % 2 ^ 32) in
      let wrap : w % 2 ^ 32 % 2 ^ 32 ≡ w % 2 ^ 32 = omega arith in
      let fuel =
        format_loop-fuel M (suc (suc (length rest))) (suc (length rest)) rest args (omega arith)
          (omega arith) in
      (
        signed_field plain_spec v,
        (
          rw (turn_int rest w args, fuel) refl,
          read_signed v (to_signed-SmallInt (w % 2 ^ 32)) ∙ rw wrap refl,
        ),
      )
