-- ===== src/Klib/Fmt/Width.antt =====
-- The widths of the fields of vstrfmt in klib/string.c.
use zuzu.Base.{
  ℕ, ◌>>=◌, suc, ◌+◌, ◌-◌, ◌%◌, ◌≤◌, ◌≡◌, refl, Bool, true, false, arith, ◌||◌, Option, none, some,
  List, [], ◌∷◌, ◌++◌, ltb, ◌==◌, if◌then◌else◌, length, sym, ◌∙◌, ap, Bool-cases, inl, inr,
  replicate, length-replicate, length-append, take, length-take,
}
use mathlib.Core.Bool.{true≢false}
use zuzu.Klib.Ascii.{percent, blank, zero_digit, low_c, low_s}
use zuzu.Klib.Str.{strlen}
use zuzu.Klib.Fmt.Args.{Arg, take_word, take_text, take_real, get_signed_arg, get_unsigned_arg}
use zuzu.Klib.Fmt.Directive.{Flags, Spec}
use zuzu.Klib.Fmt.Field.{
  emit_repeat, emit_strn, blank_field, char_field, str_field, shown, cut, number_field,
  signed_field, unsigned_field, pointer_field,
}
use zuzu.Klib.Fmt.Double.{Doubles, real_field, sig_overflows}
use zuzu.Klib.Fmt.Loop.{shows, real_shown, convert, is_signed, is_unsigned, is_pointer, is_real}
use zuzu.Klib.Fmt.Rest.{Each, Each-if}

abbrev max_of : ℕ → ℕ → ℕ
max_of a b = if ltb a b then b else a

number_field-length :
    (f : Flags) (width zpad : ℕ) (sig num : List ℕ)
    → length (number_field f width zpad sig num) ≡ max_of (length num + zpad + length sig) width
unfolding number_field emit_repeat
number_field-length f width zpad sig num =
    let total = length num + zpad + length sig in
    let wpad = if ltb total width then width - total else 0 in
    let pads = length-replicate wpad blank in
    let pads0 = length-replicate wpad zero_digit in
    let zeros = replicate zpad zero_digit in
    let zs = length-replicate zpad zero_digit in
    elim (Bool-cases f.left) [
      | inl l ↦ rw l (
          ground (
            arith,
            pads,
            zs,
            length-append sig (zeros ++ (num ++ replicate wpad blank)),
            length-append zeros (num ++ replicate wpad blank),
            length-append num (replicate wpad blank),
          ))
      | inr l ↦ elim (Bool-cases f.zero_pad) [
        | inl z ↦
            rw (l, z)
              (ground (
                arith,
                pads0,
                zs,
                length-append sig (replicate wpad zero_digit ++ (zeros ++ (num ++ []))),
                length-append (replicate wpad zero_digit) (zeros ++ (num ++ [])),
                length-append zeros (num ++ []),
                length-append num [],
              ))
        | inr z ↦
            rw (l, z)
              (ground (
                arith,
                pads,
                zs,
                length-append (replicate wpad blank) (sig ++ (zeros ++ (num ++ []))),
                length-append sig (zeros ++ (num ++ [])),
                length-append zeros (num ++ []),
                length-append num [],
              ))
      ]
    ]

blank_field-length :
    (left : Bool) (pad : ℕ) (s : List ℕ) → length (blank_field left pad s) ≡ length s + pad
unfolding blank_field emit_repeat
blank_field-length true pad s =
    omega (arith, length-append s (replicate pad blank), length-replicate pad blank)
blank_field-length false pad s =
    omega (arith, length-append (replicate pad blank) s, length-replicate pad blank)

strlen-length : (s : List ℕ) → strlen s ≡ length s
unfolding strlen
strlen-length [] = refl
strlen-length (c ∷ s) = ap suc (strlen-length s)

strlen-take : (s : List ℕ) (n : ℕ) → n ≤ strlen s → length (take n s) ≡ n
unfolding strlen
strlen-take s n h = omega (arith, length-take n s, strlen-length s)

cut-le : (prec : Option ℕ) (n : ℕ) → cut prec n ≤ n
cut-le none n = omega arith
cut-le (some p) n = ground arith

char_field-width : (d : Spec) (w : ℕ) → d.width ≤ length (char_field d w)
unfolding char_field
char_field-width d w =
    let e =
      blank_field-length (d.flags).left (if ltb 1 d.width then d.width - 1 else 0)
        ((w % 256) ∷ []) in
    ground (arith, e)

str_field-width : (d : Spec) (s : Option (List ℕ)) → d.width ≤ length (str_field d s)
unfolding str_field emit_strn
str_field-width d s =
    let n = cut d.prec (strlen (shown s)) in
    let t = strlen-take (shown s) n (cut-le d.prec (strlen (shown s))) in
    let e =
      blank_field-length (d.flags).left (if ltb n d.width then d.width - n else 0)
        (take n (shown s)) in
    ground (arith, e, t)

number_field-width :
    (f : Flags) (width zpad : ℕ) (sig num : List ℕ)
    → width ≤ length (number_field f width zpad sig num)
number_field-width f width zpad sig num =
    let e = number_field-length f width zpad sig num in ground (arith, e)

Each-test {ℓ κ} :
    {A : Type ℓ} (P : A → Type κ) (b : Bool) (x y : Option A)
    → (b ≡ true → Each P x)
    → (b ≡ false → Each P y)
    → Each P (if b then x else y)
Each-test P true x y hx hy = hx refl
Each-test P false x y hx hy = hy refl

-- The conversions that print a padded field: all but '%' and the unknown ones.
abbrev pub is_padded : ℕ → Bool
is_padded c = c == low_c || c == low_s || is_signed c || is_unsigned c || is_pointer c || is_real c

module _ (M : Doubles) where
  Wide : Spec → List ℕ × List (Arg M.Carrier) → Type 0
  Wide d r = d.width ≤ length r.0

  shows-Wide :
      {A : Type 0} (d : Spec) (show : A → List ℕ) (r : Option (A × List (Arg M.Carrier)))
      → ((a : A) → d.width ≤ length (show a))
      → Each (Wide d) (shows M show r)
  unfolding Wide
  shows-Wide d show none h = tt
  shows-Wide d show (some p) h = h p.0

  real_shown-Wide :
      (d : Spec) (c : ℕ) (o : Option (M.Carrier × List (Arg M.Carrier)))
      → Each (Wide d) (do p ← o; real_shown M d c p)
  unfolding real_shown real_field Wide
  real_shown-Wide d c none = tt
  real_shown-Wide d c (some p) =
      Each-if (Wide d) (sig_overflows M d c p.0) none _ tt
        (number_field-width d.flags d.width 0 _ _)

  -- No conversion that pads prints fewer characters than the width that the format asks for.
  pub convert-width :
      (d : Spec) (c : ℕ) (args : List (Arg M.Carrier))
      → is_padded c ≡ true
      → Each (λ r. d.width ≤ length r.0) (convert M d c args)
  unfolding convert Wide signed_field unsigned_field pointer_field real_field
  convert-width d c args h =
      Each-test (Wide d) (c == percent) _ _
        (λ e. let q : c ≡ percent = ground arith in absurd (true≢false (sym h ∙ rw q refl)))
        (λ e1.
          Each-test (Wide d) (c == low_c) _ _
            (λ e. shows-Wide d (char_field d) (take_word args) (char_field-width d))
            (λ e2.
              Each-test (Wide d) (c == low_s) _ _
                (λ e. shows-Wide d (str_field d) (take_text args) (str_field-width d))
                (λ e3.
                  Each-test (Wide d) (is_signed c) _ _
                    (λ e.
                      shows-Wide d (signed_field d) (get_signed_arg args d.len)
                        (λ v. number_field-width d.flags d.width _ _ _))
                    (λ e4.
                      Each-test (Wide d) (is_unsigned c) _ _
                        (λ e.
                          shows-Wide d (unsigned_field d c) (get_unsigned_arg args d.len)
                            (λ v. number_field-width d.flags d.width _ _ _))
                        (λ e5.
                          Each-test (Wide d) (is_pointer c) _ _
                            (λ e.
                              shows-Wide d (pointer_field d c) (take_word args)
                                (λ v. number_field-width d.flags d.width _ _ _))
                            (λ e6.
                              Each-test (Wide d) (is_real c) _ _
                                (λ e. real_shown-Wide d c (take_real args))
                                (λ e7.
                                  absurd
                                    (true≢false (sym h ∙ rw (e2, e3, e4, e5, e6, e7) refl)))))))))
