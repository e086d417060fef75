-- ===== src/Klib/Fmt/Rest.antt =====
-- How much of the format the parser of vstrfmt in klib/string.c leaves.
use zuzu.Base.{
  ℕ, suc, ◌+◌, ◌-◌, ◌*◌, ◌^◌, ◌≤◌, ◌<◌, Bool, true, false, ◌>>=◌, arith, Option, none, some, List,
  [], ◌∷◌, ltb, ◌==◌, if◌then◌else◌, length, Bool-cases, Option-cases, inl, inr,
}
use zuzu.Base.Int.{ℤ, pos, negsuc, to_signed}
use zuzu.Klib.Ascii.{star, dot, zero_digit, low_h, low_l}
use zuzu.Klib.Fmt.Args.{Arg, take_word, Length, len_h, len_hh, len_l, len_ll}
use zuzu.Klib.Fmt.Directive.{
  Flags, Parsed, no_flags, flag_of, parse_flags, is_digit, digits_from, parse_int, star_width,
  digit_width, parse_width, star_prec, digit_prec, prec_behind_dot, parse_prec, doubled, parse_len,
  finish, with_prec, parse_spec,
}
use zuzu.Klib.Fmt.Loop.{Turn, end, endless, emitted}

-- `P` of the result, where there is one.
abbrev pub Each {ℓ κ} : {A : Type ℓ} → (A → Type κ) → Option A → Type κ
Each P none = Unit
Each P (some a) = P a

pub Each-bind {ℓ κ μ ν} :
    {A : Type ℓ} {B : Type κ} (P : A → Type μ) (Q : B → Type ν) (o : Option A) (f : A → Option B)
    → Each P o
    → ((a : A) → P a → Each Q (f a))
    → Each Q (o >>= f)
Each-bind P Q none f h k = tt
Each-bind P Q (some a) f h k = k a h

pub Each-if {ℓ κ} :
    {A : Type ℓ} (P : A → Type κ) (b : Bool) (x y : Option A)
    → Each P x
    → Each P y
    → Each P (if b then x else y)
Each-if P true x y hx hy = hx
Each-if P false x y hx hy = hy

parse_flags-length : (f : Flags) (s : List ℕ) → length (parse_flags f s).1 ≤ length s
unfolding parse_flags
parse_flags-length f [] = omega arith
parse_flags-length f (c ∷ s) = elim (Option-cases (flag_of f c)) [
  | inl e ↦ rw e (omega arith)
  | inr (g, e) ↦ rw e (omega (arith, parse_flags-length g s))
]

digits_from-length : (v : ℕ) (s : List ℕ) → length (digits_from v s).1 ≤ length s
unfolding digits_from
digits_from-length v [] = omega arith
digits_from-length v (c ∷ s) = elim (Bool-cases (is_digit c)) [
  | inl e ↦ rw e (omega (arith, digits_from-length (v * 10 + (c - zero_digit)) s))
  | inr e ↦ rw e (omega arith)
]

doubled-length : (c : ℕ) (one two : Length) (s : List ℕ) → length (doubled c one two s).1 ≤ length s
unfolding doubled
doubled-length c one two [] = omega arith
doubled-length c one two (d ∷ s) = elim (Bool-cases (d == c)) [
  | inl e ↦ rw e (omega arith)
  | inr e ↦ rw e (omega arith)
]

parse_len-length : (s : List ℕ) → length (parse_len s).1 ≤ length s
unfolding parse_len
parse_len-length [] = omega arith
parse_len-length (c ∷ s) =
    let h = doubled-length low_h len_h len_hh s in
    let l = doubled-length low_l len_l len_ll s in ground (arith, h, l)

parse_int-within : (s : List ℕ) → Each (λ r. length r.1 ≤ length s) (parse_int s)
unfolding parse_int
parse_int-within s =
    Each-if (λ r. length r.1 ≤ length s) (ltb (digits_from 0 s).0 (2 ^ 31)) (some (digits_from 0 s))
      none (digits_from-length 0 s) tt

module _ {F : Type 0} where
  -- What is left of the format is no longer than `n`.
  abbrev pub Within : {A : Type 0} → ℕ → Parsed F A → Type 0
  Within n p = length p.fmt ≤ n

  star_width-Within :
      (left : Bool) (s : List ℕ) (r : ℕ × List (Arg F))
      → Each (Within (length s)) (star_width left s r)
  unfolding star_width
  star_width-Within left s (w, args) = go (to_signed 32 w)
    where
      go :
          (v : ℤ)
          → Each (Within {A = Bool × ℕ} (length s)) (elim v [
            | pos n ↦ some (record { got = (left, n); fmt = s; args = args })
            | negsuc n ↦
                if ltb n (2 ^ 31 - 1)
                then some (record { got = (true, n + 1); fmt = s; args = args })
                else none
          ])
      go (pos n) = omega arith
      go (negsuc n) = Each-if (Within (length s)) (ltb n (2 ^ 31 - 1)) _ none (omega arith) tt

  star_prec-Within : (s : List ℕ) (r : ℕ × List (Arg F)) → Each (Within (length s)) (star_prec s r)
  unfolding star_prec
  star_prec-Within s (w, args) = go (to_signed 32 w)
    where
      go :
          (v : ℤ)
          → Each (Within {A = Option ℕ} (length s)) (elim v [
            | pos n ↦ some (record { got = some n; fmt = s; args = args })
            | negsuc n ↦ some (record { got = none; fmt = s; args = args })
          ])
      go (pos n) = omega arith
      go (negsuc n) = omega arith

  -- A longer format is a weaker bound.
  Within-suc :
      {A : Type 0} (n : ℕ) (o : Option (Parsed F A)) → Each (Within n) o → Each (Within (suc n)) o
  Within-suc n none h = tt
  Within-suc n (some p) h = omega arith

  take_word_any : (args : List (Arg F)) → Each {0, 0} (λ r. Unit) (take_word args)
  take_word_any args = elim (Option-cases (take_word args)) [
    | inl e ↦ rw e tt
    | inr (r, e) ↦ rw e tt
  ]

  parse_width-Within :
      (left : Bool) (s : List ℕ) (args : List (Arg F))
      → Each (Within (length s)) (parse_width left s args)
  unfolding parse_width digit_width
  parse_width-Within left [] args = omega arith
  parse_width-Within left (c ∷ s) args =
      Each-if (Within (suc (length s))) (c == star) _ _
        (Each-bind {0, 0, 0, 0} (λ r. Unit) (Within (suc (length s))) (take_word args)
          (star_width left s) (take_word_any args)
          (λ r h. Within-suc (length s) (star_width left s r) (star_width-Within left s r)))
        (Each-if (Within (suc (length s))) (is_digit c) _ _
          (Each-bind _ (Within (suc (length s))) (parse_int (c ∷ s)) (digit_width left args)
            (parse_int-within (c ∷ s)) (λ r h. h))
          (omega arith))

  prec_behind_dot-Within :
      (s : List ℕ) (args : List (Arg F)) → Each (Within (length s)) (prec_behind_dot s args)
  unfolding prec_behind_dot digit_prec
  prec_behind_dot-Within [] args = omega arith
  prec_behind_dot-Within (c ∷ s) args =
      Each-if (Within (suc (length s))) (c == star) _ _
        (Each-bind {0, 0, 0, 0} (λ r. Unit) (Within (suc (length s))) (take_word args) (star_prec s)
          (take_word_any args)
          (λ r h. Within-suc (length s) (star_prec s r) (star_prec-Within s r)))
        (Each-if (Within (suc (length s))) (is_digit c) _ _
          (Each-bind _ (Within (suc (length s))) (parse_int (c ∷ s)) (digit_prec args)
            (parse_int-within (c ∷ s)) (λ r h. h))
          (omega arith))

  parse_prec-Within :
      (s : List ℕ) (args : List (Arg F)) → Each (Within (length s)) (parse_prec s args)
  unfolding parse_prec
  parse_prec-Within [] args = omega arith
  parse_prec-Within (c ∷ s) args =
      Each-if (Within (suc (length s))) (c == dot) _ _
        (Within-suc (length s) (prec_behind_dot s args) (prec_behind_dot-Within s args))
        (omega arith)

  pub parse_spec-Within :
      (s : List ℕ) (args : List (Arg F)) → Each (Within (length s)) (parse_spec s args)
  unfolding parse_spec with_prec finish
  parse_spec-Within s args =
      let r = parse_flags no_flags s in
      Each-bind _ (Within (length s)) (parse_width (r.0).left r.1 args) (with_prec r.0)
        (parse_width-Within (r.0).left r.1 args)
        (λ w hw.
          Each-bind _ (Within (length s)) (parse_prec w.fmt w.args) (finish r.0 w.got)
            (parse_prec-Within w.fmt w.args)
            (λ p hp. omega (arith, parse_len-length p.fmt, parse_flags-length no_flags s)))

  abbrev pub TurnWithin : ℕ → Turn F → Type 0
  TurnWithin n end = Unit
  TurnWithin n endless = Unit
  TurnWithin n (emitted out s args) = length s < n
