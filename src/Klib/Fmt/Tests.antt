-- ===== src/Klib/Fmt/Tests.antt =====
-- The theorems of `Klib.Fmt` on a small format. Whole numbers stand for the doubles.
use zuzu.Base.{
  ℕ, ◌+◌, ◌-◌, ◌*◌, ◌/◌, ◌≤◌, ◌<◌, ◌≡◌, refl, false, arith, none, some, List, [], ◌∷◌, ltb, leb,
  ◌==◌, length,
}
use zuzu.Base.Int.{pos, to_signed}
use zuzu.Klib.Fmt.Args.{Arg, word, real, get_signed_arg, signed}
use zuzu.Klib.Fmt.Directive.{
  parse_spec, parse_flags, parse_width, parse_int, digits_from, digit_width, parse_prec, parse_len,
  with_prec, finish, is_digit,
}
use zuzu.Klib.Fmt.Field.{number_field, signed_field, signed_text, emit_repeat}
use zuzu.Klib.Fmt.Double.{Doubles, real_text}
use zuzu.Klib.Fmt.Loop.{
  printed, before, is_endless, convert, turn, turn_at, resume, shown_turn, format_loop, vstrfmt,
}
use zuzu.Klib.Fmt.Scale.{IsScaling, IsArithmetic}
use zuzu.Klib.Fmt.Fuel.{Ends, vstrfmt-Ends}
use zuzu.Klib.Fmt.Print.{read_int, vstrfmt-print_int}
use zuzu.Klib.Fmt.RealBound.{real_text-fits}
use zuzu.Klib.Fmt.Bounded.{filled, vsnprintf}
use zuzu.Klib.Fmt.Snprintf.{Written, vsnprintf-Written}
use zuzu.Klib.Digits.{utoa_ull, digits_of, digit_loop, digs, supports, real_base}

abbrev whole : (ℕ → ℕ) → Doubles
whole rank = record {
  Carrier = ℕ;
  signbit = λ x. false;
  isnan = λ x. false;
  isinf = λ x. false;
  fabs = λ x. x;
  of_ull = λ n. n;
  half = 0;
  to_int = λ x. pos x;
  to_ull = λ x. x;
  add = λ x y. x + y;
  sub = λ x y. x - y;
  mul = λ x y. x * y;
  div = λ x y. x / y;
  less = ltb;
  at_least = λ x y. leb y x;
  equal = λ x y. x == y;
  decades = rank;
  decimals = rank;
}

abbrev twenty : ℕ → ℕ
twenty x = 20

abbrev itself : ℕ → ℕ
itself x = x

-- "a%5d" with 42.
abbrev sample : List ℕ
sample = 97 ∷ 37 ∷ 53 ∷ 100 ∷ []

abbrev forty_two : List (Arg ℕ)
forty_two = word 42 ∷ []

-- "a   42"
abbrev sample_text : List ℕ
sample_text = 97 ∷ 32 ∷ 32 ∷ 32 ∷ 52 ∷ 50 ∷ []

vstrfmt_run : vstrfmt (whole twenty) sample forty_two ≡ printed sample_text
unfolding vstrfmt format_loop turn turn_at resume shown_turn is_endless convert parse_spec
    parse_flags parse_width parse_int digits_from digit_width parse_prec parse_len with_prec finish
    is_digit get_signed_arg signed signed_field signed_text number_field emit_repeat utoa_ull
    digits_of digit_loop digs supports real_base
vstrfmt_run = refl

-- "%e" with 1234.
abbrev big : List ℕ
big = 37 ∷ 101 ∷ []

abbrev one_real : List (Arg ℕ)
one_real = real 1234 ∷ []

whole-IsScaling : IsScaling (whole itself)
whole-IsScaling = record {
  divides = λ x f t. (ground arith, record { positive = ground arith; finite = refl });
  multiplies = λ x f t. let p = f.positive in absurd (ground arith);
}

whole-IsArithmetic : IsArithmetic (whole itself)
whole-IsArithmetic = record {
  scaling = whole-IsScaling;
  magnitude = λ x n i z. record { positive = ground arith; finite = refl };
}

vstrfmt-Ends_example :
    Ends (vstrfmt (whole itself) big one_real)
    × ((n : ℕ)
        → 2 < n
        → format_loop (whole itself) n big one_real ≡ vstrfmt (whole itself) big one_real)
vstrfmt-Ends_example = vstrfmt-Ends (whole itself) whole-IsArithmetic big one_real

vstrfmt-print_int_example :
    (text : List ℕ) × ((vstrfmt (whole twenty) (37 ∷ 100 ∷ sample) (word 4294967295 ∷ forty_two)
        ≡ before text (vstrfmt (whole twenty) sample forty_two))
      × (read_int text ≡ to_signed 32 4294967295))
vstrfmt-print_int_example = vstrfmt-print_int (whole twenty) sample 4294967295 forty_two

-- %.3g of 1234567.
real_text-fits_example : length (real_text (whole twenty) false (some 3) 103 1234567) ≤ 64
real_text-fits_example =
    real_text-fits (whole twenty) (λ x. (omega arith, omega arith)) false (some 3) 103 1234567
      (omega arith)

-- A buffer of five bytes, of which four may be used.
abbrev bytes : List ℕ
bytes = 7 ∷ 7 ∷ 7 ∷ 7 ∷ 7 ∷ []

vsnprintf-Written_example :
    (0 < 4 → Written bytes 4 sample_text (vsnprintf (whole twenty) (some bytes) 4 sample forty_two))
    × ((vsnprintf (whole twenty) (some bytes) 0 sample forty_two ≡ filled (some bytes) (pos 6))
        × (vsnprintf (whole twenty) none 4 sample forty_two ≡ filled none (pos 6)))
vsnprintf-Written_example =
    vsnprintf-Written (whole twenty) bytes 4 sample forty_two sample_text (omega arith)
      (omega arith) vstrfmt_run
