-- ===== src/Klib/Fmt/Double.antt =====
-- The floating-point conversions of vstrfmt in klib/string.c. Doubles come from the compiler and the
-- hardware, not from this repository: a section parameter gives their operations.
use zuzu.Base.{
  ℕ, zero, suc, ◌+◌, ◌-◌, ◌%◌, ◌^◌, Bool, true, false, not, ◌&&◌, ◌||◌, Option, none, some, List,
  [], ◌∷◌, ◌++◌, ltb, leb, ◌==◌, if◌then◌else◌, length, take, drop, replicate,
}
use zuzu.Base.Int.{ℤ, pos, negsuc, sub_ℕ}
use zuzu.Klib.Ascii.{
  minus_sign, zero_digit, nine, plus_sign, dot, low_e, low_f, upper_e, upper_f, upper_g,
}
use zuzu.Klib.Digits.{utoa_ull}
use zuzu.Klib.Fmt.Directive.{Spec}
use zuzu.Klib.Fmt.Field.{number_field, plus_sign_of}

-- The operations on doubles that the formatter uses. `to_int` and `to_ull` are the casts. `decades x` and
-- `decimals x` bound how often a finite `x` is divided by ten until it is below ten, and multiplied by
-- ten until it is at least one.
pub record Doubles : Type 1 where
  pub Carrier : Type 0
  pub signbit : Carrier → Bool
  pub isnan : Carrier → Bool
  pub isinf : Carrier → Bool
  pub fabs : Carrier → Carrier
  pub of_ull : ℕ → Carrier
  pub half : Carrier
  pub to_int : Carrier → ℤ
  pub to_ull : Carrier → ℕ
  pub add : Carrier → Carrier → Carrier
  pub sub : Carrier → Carrier → Carrier
  pub mul : Carrier → Carrier → Carrier
  pub div : Carrier → Carrier → Carrier
  pub less : Carrier → Carrier → Bool
  pub at_least : Carrier → Carrier → Bool
  pub equal : Carrier → Carrier → Bool
  pub decades : Carrier → ℕ
  pub decimals : Carrier → ℕ

-- The digit of a product, between 0 and 9.
unfoldable pub clamp_digit : ℤ → ℕ
clamp_digit (pos n) = if ltb 9 n then 9 else n
clamp_digit (negsuc n) = 0

-- Adds one to a decimal text from its last digit on; the carry out of the first digit is the flag.
unfoldable pub bump : List ℕ → List ℕ × Bool
bump [] = ([], true)
bump (c ∷ s) =
    let r = bump s in
    if r.1
    then (if c == nine then (zero_digit ∷ r.0, true) else ((c + 1) ∷ r.0, false))
    else (c ∷ r.0, false)

unfoldable pub strip_zeros : List ℕ → List ℕ
strip_zeros [] = []
strip_zeros (c ∷ s) =
    let r = strip_zeros s in if length r == 0 && c == zero_digit then [] else c ∷ r

-- A '.' at the end of a text is dropped.
unfoldable pub strip_dot : List ℕ → List ℕ
strip_dot [] = []
strip_dot (c ∷ s) = if length s == 0 && c == dot then [] else c ∷ strip_dot s

abbrev pub at_most : ℕ → ℕ → ℕ
at_most limit n = if ltb limit n then limit else n

abbrev pub default_six : Option ℕ → ℕ
default_six none = 6
default_six (some p) = p

-- 'e' or 'E', the sign and at least two digits of an exponent.
unfoldable pub exp_digits : ℕ → List ℕ
exp_digits aexp =
    let ebuf = utoa_ull aexp 10 false in
    (if ltb (length ebuf) 2 then zero_digit ∷ [] else []) ++ ebuf

unfoldable pub exp_suffix : Bool → ℤ → List ℕ
exp_suffix uppercase (pos n) = (if uppercase then upper_e else low_e) ∷ plus_sign ∷ exp_digits n
exp_suffix uppercase (negsuc n) =
    (if uppercase then upper_e else low_e) ∷ minus_sign ∷ exp_digits (n + 1)

-- "NAN", "nan", "INF" and "inf".
abbrev pub nan_text : Bool → List ℕ
nan_text true = 78 ∷ 65 ∷ 78 ∷ []
nan_text false = 110 ∷ 97 ∷ 110 ∷ []

abbrev pub inf_text : Bool → List ℕ
inf_text true = 73 ∷ 78 ∷ 70 ∷ []
inf_text false = 105 ∷ 110 ∷ 102 ∷ []

-- %g with an exponent: the fraction without its trailing zeros unless '#' is given.
unfoldable pub short_exp : Bool → Bool → List ℕ → ℤ → List ℕ
short_exp alt uppercase mdigits exp10 =
    let frac = if alt then drop 1 mdigits else strip_zeros (drop 1 mdigits) in
    take 1 mdigits
    ++ ((if ltb 0 (length frac) || alt then dot ∷ frac else []) ++ exp_suffix uppercase exp10)

-- %g without an exponent, for -4 <= exp10 < p.
unfoldable pub short_tail : Bool → List ℕ → List ℕ
short_tail alt text = if alt then text else strip_dot (strip_zeros text)

unfoldable pub short_fixed : Bool → ℕ → List ℕ → ℤ → List ℕ
short_fixed alt p mdigits (pos n) =
    if ltb 0 (p - 1 - n) || alt
    then short_tail alt (take (n + 1) mdigits ++ (dot ∷ drop (n + 1) mdigits))
    else take (n + 1) mdigits
short_fixed alt p mdigits (negsuc n) =
    short_tail alt (zero_digit ∷ dot ∷ (replicate n zero_digit ++ take p mdigits))

-- exp10 < -4 || exp10 >= p
abbrev pub far : ℕ → ℤ → Bool
far p (pos n) = leb p n
far p (negsuc n) = leb 4 n

module _ (M : Doubles) where
  abbrev pub ten : M.Carrier
  ten = M.of_ull 10

  -- Each step takes the integer part of ten times the fraction.
  unfoldable pub fixed_digits : M.Carrier → ℕ → List ℕ × M.Carrier
  fixed_digits frac zero = ([], frac)
  fixed_digits frac (suc n) =
      let product = M.mul frac ten in
      let d = clamp_digit (M.to_int product) in
      let r = fixed_digits (M.sub product (M.of_ull d)) n in ((zero_digit + d) ∷ r.0, r.1)

  unfoldable pub format_fixed_digits : M.Carrier → ℕ → List ℕ × Bool
  format_fixed_digits frac prec =
      let r = fixed_digits frac prec in if M.at_least r.1 M.half then bump r.0 else (r.0, false)

  -- while (av >= 10.0), for as many turns as the fuel; `loops_end` tells whether they were enough.
  unfoldable pub scale_down : ℕ → M.Carrier → ℕ → M.Carrier × ℕ
  scale_down zero av exp = (av, exp)
  scale_down (suc fuel) av exp =
      let next = scale_down fuel (M.div av ten) (exp + 1) in
      if M.at_least av ten then next else (av, exp)

  -- while (av < 1.0), likewise.
  unfoldable pub scale_up : ℕ → M.Carrier → ℕ → M.Carrier × ℕ
  scale_up zero av exp = (av, exp)
  scale_up (suc fuel) av exp =
      let next = scale_up fuel (M.mul av ten) (exp + 1) in
      if M.less av (M.of_ull 1) then next else (av, exp)

  unfoldable pub scale_loop : ℕ → M.Carrier → M.Carrier
  scale_loop zero scale = scale
  scale_loop (suc n) scale = scale_loop n (M.mul scale ten)

  -- `sigdigits` digits of a text, behind zeros where it is shorter.
  unfoldable pub to_digits : ℕ → List ℕ → List ℕ
  to_digits sigdigits tmp =
      let pad = sigdigits - length tmp in replicate pad zero_digit ++ take (sigdigits - pad) tmp

  unfoldable pub format_efmt_digits : M.Carrier → ℕ → List ℕ × ℤ
  format_efmt_digits av sigdigits =
      let down = scale_down (M.decades av) av 0 in
      let up = scale_up (M.decimals down.0) down.0 0 in
      let scale = scale_loop (sigdigits - 1) (M.of_ull 1) in
      let rounded = M.add up.0 (M.div M.half scale) in
      let over = M.at_least rounded ten in
      let scaled = M.to_ull (M.mul (if over then M.div rounded ten else rounded) scale) % 2 ^ 64 in
      (
        to_digits sigdigits (utoa_ull scaled 10 false),
        sub_ℕ (if over then down.1 + 1 else down.1) up.1,
      )

  -- Zero is not scaled.
  unfoldable pub mantissa : M.Carrier → ℕ → List ℕ × ℤ
  mantissa av sig =
      if M.equal av (M.of_ull 0)
      then (replicate sig zero_digit, pos 0)
      else format_efmt_digits av sig

  unfoldable pub fixed_text : Bool → Option ℕ → M.Carrier → List ℕ
  fixed_text alt prec av =
      let p = at_most 40 (default_six prec) in
      let ip = M.to_ull av % 2 ^ 64 in
      let r = format_fixed_digits (M.sub av (M.of_ull ip)) p in
      utoa_ull (if r.1 then (ip + 1) % 2 ^ 64 else ip) 10 false
      ++ ((if ltb 0 p || alt then dot ∷ [] else []) ++ r.0)

  -- `p + 1` is an int: `convert` has refused a precision for which it overflows.
  unfoldable pub exp_text : Bool → Bool → Option ℕ → M.Carrier → List ℕ
  exp_text alt uppercase prec av =
      let p = default_six prec in
      let r = mantissa av (at_most 17 (p + 1)) in
      take 1 r.0 ++ ((if ltb 0 p || alt then dot ∷ drop 1 r.0 else []) ++ exp_suffix uppercase r.1)

  unfoldable pub short_text : Bool → Bool → Option ℕ → M.Carrier → List ℕ
  short_text alt uppercase prec av =
      let p = at_most 17 (if default_six prec == 0 then 1 else default_six prec) in
      let r = mantissa av p in
      if far p r.1 then short_exp alt uppercase r.0 r.1 else short_fixed alt p r.0 r.1

  -- Do the scaling loops of format_efmt_digits end by their own tests within their turns?
  unfoldable pub loops_end : M.Carrier → Bool
  unfolding scale_down scale_up
  loops_end av =
      let down = (scale_down (M.decades av) av 0).0 in
      let up = (scale_up (M.decimals down) down 0).0 in
      not (M.at_least down ten) && not (M.less up (M.of_ull 1))

  -- Does a conversion of `val` reach those loops? Not %f, and no NaN, infinity or zero.
  abbrev pub scales : ℕ → M.Carrier → Bool
  scales spec val =
      not (M.isnan val)
      && (not (M.isinf val)
          && (not (spec == low_f || spec == upper_f) && not (M.equal (M.fabs val) (M.of_ull 0))))

  abbrev pub cut_off : ℕ → M.Carrier → Bool
  cut_off spec val = scales spec val && not (loops_end (M.fabs val))

  -- Does `p + 1` of %e overflow an int?
  abbrev pub sig_overflows : Spec → ℕ → M.Carrier → Bool
  sig_overflows d spec val =
      not (M.isnan val)
      && (not (M.isinf val)
          && ((spec == low_e || spec == upper_e) && leb (2 ^ 31 - 1) (default_six d.prec)))

  abbrev pub is_upper : ℕ → Bool
  is_upper spec = spec == upper_f || spec == upper_e || spec == upper_g

  -- numbuf[0 .. nlen)
  unfoldable pub real_text : Bool → Option ℕ → ℕ → M.Carrier → List ℕ
  real_text alt prec spec val =
      let av = M.fabs val in
      if M.isnan val
      then nan_text (is_upper spec)
      else if M.isinf val
      then inf_text (is_upper spec)
      else if spec == low_f || spec == upper_f
      then fixed_text alt prec av
      else if spec == low_e || spec == upper_e
      then exp_text alt (is_upper spec) prec av
      else short_text alt (is_upper spec) prec av

  unfoldable pub real_field : Spec → ℕ → M.Carrier → List ℕ
  real_field d spec val =
      let sig =
        if M.isnan val
        then []
        else if M.signbit val
        then minus_sign ∷ []
        else plus_sign_of d.flags in
      number_field d.flags d.width 0 sig (real_text (d.flags).alt d.prec spec val)
