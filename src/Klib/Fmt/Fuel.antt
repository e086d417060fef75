-- ===== src/Klib/Fmt/Fuel.antt =====
-- The loop of vstrfmt in klib/string.c ends: every pass takes at least the '%' of the format.
use zuzu.Base.{
  ℕ, zero, suc, ◌≤◌, ◌<◌, ◌≡◌, refl, arith, Bool, true, false, ◌&&◌, Option, none, some, List, [],
  ◌∷◌, ◌==◌, length, Bool-cases, Option-cases, inl, inr,
}
use zuzu.Klib.Ascii.{percent}
use zuzu.Klib.Fmt.Args.{Arg, take_real}
use zuzu.Klib.Fmt.Directive.{Spec, parse_spec}
use zuzu.Klib.Fmt.Double.{Doubles}
use zuzu.Klib.Fmt.Loop.{
  Turn, end, endless, emitted, is_real, cut_arg, is_endless, Outcome, printed, undefined,
  out_of_fuel, before, convert, shown_turn, turn_at, turn, resume, format_loop, vstrfmt,
}
use zuzu.Klib.Fmt.Scale.{IsArithmetic, cut_off_lem}
use zuzu.Klib.Fmt.Rest.{Each, Each-bind, Within, parse_spec-Within, TurnWithin}

-- The run came to an end.
pub Ends : Outcome → Type 0
Ends (printed s) = Unit
Ends undefined = Unit
Ends out_of_fuel = ⊥

-- A turn that is not cut off.
abbrev Finishes : {F : Type 0} → Turn F → Type 0
Finishes end = Unit
Finishes endless = ⊥
Finishes (emitted out s args) = Unit

before-Ends : (s : List ℕ) (o : Outcome) → Ends o → Ends (before s o)
unfolding Ends
before-Ends s (printed t) e = tt
before-Ends s undefined e = tt
before-Ends s out_of_fuel e = e

module _ (M : Doubles) where
  turn_at-TurnWithin :
      (n : ℕ) (d : Spec) (fmt : List ℕ) (args : List (Arg M.Carrier))
      → length fmt ≤ n
      → Each (TurnWithin (suc n)) (turn_at M d fmt args)
  unfolding turn_at shown_turn
  turn_at-TurnWithin n d [] args h = tt
  turn_at-TurnWithin n d (c ∷ s) args h = elim (Bool-cases (is_endless M c args)) [
    | inl x ↦ rw x tt
    | inr x ↦ elim (Option-cases (convert M d c args)) [
      | inl e ↦ rw (x, e) tt
      | inr (r, e) ↦ rw (x, e) (omega arith)
    ]
  ]

  turn-TurnWithin :
      (s : List ℕ) (args : List (Arg M.Carrier))
      → Each (TurnWithin (suc (length s))) (turn M s args)
  unfolding turn
  turn-TurnWithin s args =
      Each-bind {0, 0, 0, 0} (Within (length s)) (TurnWithin (suc (length s))) (parse_spec s args)
        (λ p. turn_at M p.got p.fmt p.args) (parse_spec-Within s args)
        (λ p h. turn_at-TurnWithin (length s) p.got p.fmt p.args h)

  -- No scaling loop goes on beyond its turns.
  module _ (arithmetic : IsArithmetic M) where
    is_endless_lem : (c : ℕ) (args : List (Arg M.Carrier)) → is_endless M c args ≡ false
    unfolding is_endless
    is_endless_lem c args = go (is_real c) (take_real args)
      where
        go :
            (b : Bool) (o : Option (M.Carrier × List (Arg M.Carrier)))
            → (b && cut_arg M c o) ≡ false
        go false o = refl
        go true none = refl
        go true (some p) = cut_off_lem M arithmetic c p.0

    turn_at-Finishes :
        (d : Spec) (fmt : List ℕ) (args : List (Arg M.Carrier))
        → Each Finishes (turn_at M d fmt args)
    unfolding turn_at shown_turn
    turn_at-Finishes d [] args = tt
    turn_at-Finishes d (c ∷ s) args = elim (Option-cases (convert M d c args)) [
      | inl e ↦ rw (is_endless_lem c args, e) tt
      | inr (r, e) ↦ rw (is_endless_lem c args, e) tt
    ]

    turn-Finishes : (s : List ℕ) (args : List (Arg M.Carrier)) → Each Finishes (turn M s args)
    unfolding turn
    turn-Finishes s args =
        Each-bind {0, 0, 0, 0} (Within (length s)) Finishes (parse_spec s args)
          (λ p. turn_at M p.got p.fmt p.args) (parse_spec-Within s args)
          (λ p h. turn_at-Finishes p.got p.fmt p.args)

  resume-Ends :
      (n k : ℕ) (t : Option (Turn M.Carrier)) (loop : List ℕ → List (Arg M.Carrier) → Outcome)
      → Each (TurnWithin n) t
      → Each Finishes t
      → n ≤ k
      → ((s : List ℕ) (args : List (Arg M.Carrier)) → length s < k → Ends (loop s args))
      → Ends (resume M loop t)
  unfolding resume Ends
  resume-Ends n k none loop w fin le h = tt
  resume-Ends n k (some end) loop w fin le h = tt
  resume-Ends n k (some endless) loop w fin le h = fin
  resume-Ends n k (some (emitted out s args)) loop w fin le h =
      before-Ends out (loop s args) (h s args (omega arith))

  format_loop-Ends :
      IsArithmetic M
      → (n : ℕ) (s : List ℕ) (args : List (Arg M.Carrier)) → length s < n
      → Ends (format_loop M n s args)
  unfolding format_loop Ends
  format_loop-Ends a zero s args h = absurd (omega arith)
  format_loop-Ends a (suc n) [] args h = tt
  format_loop-Ends a (suc n) (c ∷ s) args h = elim (Bool-cases (c == percent)) [
    | inl e ↦ rw e (
        resume-Ends (suc (length s)) n (turn M s args) (format_loop M n) (turn-TurnWithin s args)
          (turn-Finishes a s args) (omega arith) (format_loop-Ends a n))
    | inr e ↦
        rw e (
          before-Ends (c ∷ []) (format_loop M n s args) (format_loop-Ends a n s args (omega arith)))
  ]

  resume-agree :
      (n : ℕ) (t : Option (Turn M.Carrier)) (loop loop' : List ℕ → List (Arg M.Carrier) → Outcome)
      → Each (TurnWithin n) t
      → ((s : List ℕ) (args : List (Arg M.Carrier)) → length s < n → loop s args ≡ loop' s args)
      → resume M loop t ≡ resume M loop' t
  unfolding resume
  resume-agree n none loop loop' w h = refl
  resume-agree n (some end) loop loop' w h = refl
  resume-agree n (some endless) loop loop' w h = refl
  resume-agree n (some (emitted out s args)) loop loop' w h = rw (h s args w) refl

  -- Fuel above the length of the format makes no difference.
  pub format_loop-fuel :
      (n m : ℕ) (s : List ℕ) (args : List (Arg M.Carrier))
      → length s < n
      → length s < m
      → format_loop M n s args ≡ format_loop M m s args
  unfolding format_loop
  format_loop-fuel zero m s args h k = absurd (omega arith)
  format_loop-fuel (suc n) zero s args h k = absurd (omega arith)
  format_loop-fuel (suc n) (suc m) [] args h k = refl
  format_loop-fuel (suc n) (suc m) (c ∷ s) args h k =
      let same =
        resume-agree (suc (length s)) (turn M s args) (format_loop M n) (format_loop M m)
          (turn-TurnWithin s args)
          (λ r a lt. format_loop-fuel n m r a (omega arith) (omega arith)) in
      let plain = format_loop-fuel n m s args (omega arith) (omega arith) in rw (same, plain) refl

  -- Where a scaling step takes a positive finite double to one that is nearer to its range, and the
  -- magnitude of a double that is neither NaN nor infinite nor zero is positive and finite, the formatter
  -- ends on every format and every list of arguments, be they right or wrong: neither the turns of the
  -- scaling loops nor fuel above the length of the format is used up, and more fuel changes nothing.
  pub vstrfmt-Ends :
      IsArithmetic M
      → (fmt : List ℕ) (args : List (Arg M.Carrier))
      → Ends (vstrfmt M fmt args)
        × ((n : ℕ) → length fmt < n → format_loop M n fmt args ≡ vstrfmt M fmt args)
  unfolding vstrfmt
  vstrfmt-Ends a fmt args = (
    format_loop-Ends a (suc (length fmt)) fmt args (omega arith),
    λ n h. format_loop-fuel n (suc (length fmt)) fmt args h (omega arith),
  )
