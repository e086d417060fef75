-- ===== src/Klib/Fmt/Field.antt =====
-- The fields that the integer, character, string and pointer conversions of vstrfmt in klib/string.c
-- print. A field is the list of the characters emitted.
use zuzu.Base.{
  ℕ, ◌+◌, ◌-◌, ◌%◌, Bool, true, false, not, ◌&&◌, ◌||◌, Option, none, some, List, [], ◌∷◌, ◌++◌,
  ltb, leb, ◌==◌, if◌then◌else◌, length, take, replicate,
}
use zuzu.Base.Int.{ℤ, pos, negsuc}
use zuzu.Klib.Ascii.{
  minus_sign, zero_digit, plus_sign, blank, low_b, low_o, low_x, upper_x, upper_p,
}
use zuzu.Klib.Str.{strlen}
use zuzu.Klib.Digits.{utoa_ull}
use zuzu.Klib.Fmt.Directive.{Flags, Spec}

unfoldable pub emit_repeat : ℕ → ℕ → List ℕ
emit_repeat ch count = replicate count ch

unfoldable pub emit_strn : List ℕ → ℕ → List ℕ
emit_strn s n = take n s

-- A text that is padded with blanks on the left or, under `left`, on the right.
unfoldable pub blank_field : Bool → ℕ → List ℕ → List ℕ
blank_field true pad s = s ++ emit_repeat blank pad
blank_field false pad s = emit_repeat blank pad ++ s

unfoldable pub char_field : Spec → ℕ → List ℕ
char_field d w =
    blank_field (d.flags).left (if ltb 1 d.width then d.width - 1 else 0) ((w % 256) ∷ [])

-- "(null)"
abbrev pub null_text : List ℕ
null_text = 40 ∷ 110 ∷ 117 ∷ 108 ∷ 108 ∷ 41 ∷ []

abbrev pub shown : Option (List ℕ) → List ℕ
shown none = null_text
shown (some s) = s

abbrev pub cut : Option ℕ → ℕ → ℕ
cut none slen = slen
cut (some p) slen = if ltb p slen then p else slen

unfoldable pub str_field : Spec → Option (List ℕ) → List ℕ
str_field d arg =
    let slen = cut d.prec (strlen (shown arg)) in
    blank_field (d.flags).left (if ltb slen d.width then d.width - slen else 0)
      (emit_strn (shown arg) slen)

-- zpad
abbrev pub zeros_for : Option ℕ → ℕ → ℕ
zeros_for none nlen = 0
zeros_for (some p) nlen = if ltb nlen p then p - nlen else 0

-- Sign or prefix `sig`, `zpad` zeros and the text `num`, padded to the width.
unfoldable pub number_field : Flags → ℕ → ℕ → List ℕ → List ℕ → List ℕ
number_field f width zpad sig num =
    let total = length num + zpad + length sig in
    let wpad = if ltb total width then width - total else 0 in
    let zeros = f.zero_pad && not f.left in
    (if not f.left && not zeros then emit_repeat blank wpad else [])
    ++ (sig
        ++ ((if not f.left && zeros then emit_repeat zero_digit wpad else [])
            ++ (emit_repeat zero_digit zpad
                ++ (num ++ (if f.left then emit_repeat blank wpad else [])))))

abbrev pub plus_sign_of : Flags → List ℕ
plus_sign_of f = if f.plus then plus_sign ∷ [] else if f.space then blank ∷ [] else []

unfoldable pub signed_text : Flags → ℤ → List ℕ × ℕ
signed_text f (negsuc n) = (minus_sign ∷ [], n + 1)
signed_text f (pos n) = (plus_sign_of f, n)

unfoldable pub signed_field : Spec → ℤ → List ℕ
signed_field d v =
    let su = signed_text d.flags v in
    let num = utoa_ull su.1 10 false in
    number_field d.flags d.width (zeros_for d.prec (length num)) su.0 num

abbrev pub base_of : ℕ → ℕ
base_of spec =
    if spec == low_x || spec == upper_x
    then 16
    else if spec == low_o
    then 8
    else if spec == low_b
    then 2
    else 10

-- prec == p, where -1 is no precision; and prec <= n.
abbrev pub prec_is : Option ℕ → ℕ → Bool
prec_is none p = false
prec_is (some q) p = q == p

abbrev pub prec_leb : Option ℕ → ℕ → Bool
prec_leb none n = true
prec_leb (some p) n = leb p n

-- The text in `num` before the prefix is chosen.
unfoldable pub plain_text : Option ℕ → ℕ → ℕ → Bool → List ℕ
plain_text prec v base uppercase =
    if prec_is prec 0 && v == 0 then [] else utoa_ull v base uppercase

unfoldable pub alt_prefix : ℕ → Option ℕ → ℕ → ℕ → List ℕ
alt_prefix spec prec v nlen =
    if (spec == low_x || spec == upper_x) && not (v == 0)
    then zero_digit ∷ low_x ∷ []
    else if spec == low_b && not (v == 0)
    then zero_digit ∷ low_b ∷ []
    else if spec == low_o && (not (v == 0) && prec_leb prec nlen)
    then zero_digit ∷ []
    else []

-- Under '#', %o of 0 with the precision 0 prints one digit.
abbrev pub alt_text : ℕ → Option ℕ → ℕ → List ℕ → List ℕ
alt_text spec prec v num =
    if spec == low_o && (v == 0 && prec_is prec 0) then zero_digit ∷ [] else num

unfoldable pub unsigned_field : Spec → ℕ → ℕ → List ℕ
unsigned_field d spec v =
    let alt = (d.flags).alt in
    let plain = plain_text d.prec v (base_of spec) (spec == upper_x) in
    let sig = if alt then alt_prefix spec d.prec v (length plain) else [] in
    let num = if alt then alt_text spec d.prec v plain else plain in
    number_field d.flags d.width (zeros_for d.prec (length num)) sig num

-- sizeof(void *) * 2
abbrev pub ptr_digits : ℕ
ptr_digits = 8

abbrev pub eff_prec : Option ℕ → Option ℕ
eff_prec none = some ptr_digits
eff_prec (some p) = some p

unfoldable pub pointer_field : Spec → ℕ → ℕ → List ℕ
pointer_field d spec pv =
    let num = plain_text (eff_prec d.prec) pv 16 (spec == upper_p) in
    number_field d.flags d.width (zeros_for (eff_prec d.prec) (length num))
      (zero_digit ∷ low_x ∷ []) num
