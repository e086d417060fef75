-- ===== src/Klib/Fmt/Loop.antt =====
-- The loop of vstrfmt in klib/string.c: what it emits, as a list of characters in order.
use zuzu.Base.{
  ℕ, zero, suc, Bool, false, ◌>>=◌, ◌&&◌, ◌||◌, Option, none, some, List, [], ◌∷◌, ◌++◌, ◌==◌,
  if◌then◌else◌, length,
}
use zuzu.Klib.Ascii.{
  percent, upper_e, upper_f, upper_g, upper_p, upper_x, low_b, low_c, low_d, low_e, low_f, low_g,
  low_i, low_o, low_p, low_s, low_u, low_x,
}
use zuzu.Klib.Fmt.Args.{Arg, take_word, take_text, take_real, get_signed_arg, get_unsigned_arg}
use zuzu.Klib.Fmt.Directive.{Spec, parse_spec}
use zuzu.Klib.Fmt.Field.{char_field, str_field, signed_field, unsigned_field, pointer_field}
use zuzu.Klib.Fmt.Double.{Doubles, real_field, sig_overflows, cut_off}

-- The conversions that share a case.
abbrev pub is_signed : ℕ → Bool
is_signed c = c == low_d || c == low_i

abbrev pub is_unsigned : ℕ → Bool
is_unsigned c = c == low_u || c == low_x || c == upper_x || c == low_o || c == low_b

abbrev pub is_pointer : ℕ → Bool
is_pointer c = c == low_p || c == upper_p

abbrev pub is_real : ℕ → Bool
is_real c = c == low_f || c == upper_f || c == low_e || c == upper_e || c == low_g || c == upper_g

-- What a conversion emits, with what is left of the format and the arguments; `end` is the break at a
-- format that ends inside a specification, and `endless` a scaling loop that goes on beyond its turns.
pub data Turn (F : Type 0) : Type 0 where
  end : Turn F
  endless : Turn F
  emitted : List ℕ → List ℕ → List (Arg F) → Turn F

-- `undefined` is undefined behaviour in C; `out_of_fuel` is a loop that is cut off.
pub data Outcome : Type 0 where
  printed : List ℕ → Outcome
  undefined : Outcome
  out_of_fuel : Outcome

abbrev pub before : List ℕ → Outcome → Outcome
before s (printed t) = printed (s ++ t)
before s undefined = undefined
before s out_of_fuel = out_of_fuel

module _ (M : Doubles) where
  abbrev pub shows :
      {A : Type 0}
      → (A → List ℕ)
      → Option (A × List (Arg M.Carrier))
      → Option (List ℕ × List (Arg M.Carrier))
  shows show r = do p ← r; some (show p.0, p.1)

  unfoldable pub real_shown :
      Spec → ℕ → M.Carrier × List (Arg M.Carrier) → Option (List ℕ × List (Arg M.Carrier))
  real_shown d spec p =
      if sig_overflows M d spec p.0 then none else some (real_field M d spec p.0, p.1)

  -- Does the argument of a conversion keep a scaling loop busy beyond its turns?
  abbrev pub cut_arg : ℕ → Option (M.Carrier × List (Arg M.Carrier)) → Bool
  cut_arg spec none = false
  cut_arg spec (some p) = cut_off M spec p.0

  unfoldable pub is_endless : ℕ → List (Arg M.Carrier) → Bool
  is_endless spec args = is_real spec && cut_arg spec (take_real args)

  -- The switch on the conversion character.
  unfoldable pub convert : Spec → ℕ → List (Arg M.Carrier) → Option (List ℕ × List (Arg M.Carrier))
  convert d spec args =
      if spec == percent
      then some (percent ∷ [], args)
      else if spec == low_c
      then shows (char_field d) (take_word args)
      else if spec == low_s
      then shows (str_field d) (take_text args)
      else if is_signed spec
      then shows (signed_field d) (get_signed_arg args d.len)
      else if is_unsigned spec
      then shows (unsigned_field d spec) (get_unsigned_arg args d.len)
      else if is_pointer spec
      then shows (pointer_field d spec) (take_word args)
      else if is_real spec
      then (do p ← take_real args; real_shown d spec p)
      else some (spec ∷ [], args)

  unfoldable pub shown_turn : List ℕ → List ℕ × List (Arg M.Carrier) → Option (Turn M.Carrier)
  shown_turn s r = some (emitted r.0 s r.1)

  -- One pass through the loop from behind a '%'.
  unfoldable pub turn_at : Spec → List ℕ → List (Arg M.Carrier) → Option (Turn M.Carrier)
  turn_at d [] args = some end
  turn_at d (c ∷ s) args =
      let shown = (do r ← convert d c args; shown_turn s r) in
      if is_endless c args then some endless else shown

  unfoldable pub turn : List ℕ → List (Arg M.Carrier) → Option (Turn M.Carrier)
  turn s args = do p ← parse_spec s args; turn_at p.got p.fmt p.args

  unfoldable pub resume :
      (List ℕ → List (Arg M.Carrier) → Outcome) → Option (Turn M.Carrier) → Outcome
  resume loop none = undefined
  resume loop (some end) = printed []
  resume loop (some endless) = out_of_fuel
  resume loop (some (emitted out s args)) = before out (loop s args)

  unfoldable pub format_loop : ℕ → List ℕ → List (Arg M.Carrier) → Outcome
  format_loop zero fmt args = out_of_fuel
  format_loop (suc fuel) [] args = printed []
  format_loop (suc fuel) (c ∷ s) args =
      let marked = resume (format_loop fuel) (turn s args) in
      let plain = before (c ∷ []) (format_loop fuel s args) in
      if c == percent then marked else plain

  -- Every pass takes a character at least.
  unfoldable pub vstrfmt : List ℕ → List (Arg M.Carrier) → Outcome
  vstrfmt fmt args = format_loop (suc (length fmt)) fmt args
