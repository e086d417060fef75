-- ===== src/Klib/Fmt/RealBound.antt =====
-- The buffers of the floating-point conversions of vstrfmt in klib/string.c: their text fits numbuf[64].
use zuzu.Base.{
  ℕ, zero, suc, ◌+◌, ◌-◌, ◌%◌, ◌^◌, ◌≤◌, ◌<◌, ◌≡◌, refl, Bool, true, false, arith, ◌||◌, Option,
  List, [], ◌∷◌, ◌++◌, ltb, ◌==◌, if◌then◌else◌, length, ◌∙◌, ap, Bool-cases, inl, inr, replicate,
  length-replicate, length-append, take, length-take, drop,
}
use zuzu.Klib.Ascii.{zero_digit, dot, low_f, upper_f, low_e, upper_e}
use zuzu.Klib.Digits.{utoa_ull}
use zuzu.Klib.Fmt.Double.{
  Doubles, at_most, default_six, exp_suffix, nan_text, inf_text, far, ten, fixed_digits,
  format_fixed_digits, scale_down, scale_up, to_digits, format_efmt_digits, mantissa, fixed_text,
  exp_text, short_text, is_upper, real_text,
}
use zuzu.Klib.Fmt.TextBound.{
  word_length, bump-length, Small, exp_suffix-length, sub_ℕ-Small, if_bound, append_bound,
  drop_bound, first_bound, short_exp-length, short_fixed-length,
}

module _ (M : Doubles) where
  fixed_digits-length : (n : ℕ) (x : M.Carrier) → length (fixed_digits M x n).0 ≡ n
  unfolding fixed_digits
  fixed_digits-length zero x = refl
  fixed_digits-length (suc n) x = ap suc (fixed_digits-length n _)

  format_fixed_digits-length : (x : M.Carrier) (n : ℕ) → length (format_fixed_digits M x n).0 ≡ n
  unfolding format_fixed_digits
  format_fixed_digits-length x n =
      let r = fixed_digits M x n in
      elim (Bool-cases (M.at_least r.1 M.half)) [
        | inl t ↦ rw t (bump-length r.0 ∙ fixed_digits-length n x)
        | inr t ↦ rw t (fixed_digits-length n x)
      ]

  to_digits-length : (k : ℕ) (s : List ℕ) → length (to_digits M k s) ≡ k
  unfolding to_digits
  to_digits-length k s =
      let pad = k - length s in
      omega (
        arith,
        length-append (replicate pad zero_digit) (take (k - pad) s),
        length-replicate pad zero_digit,
        length-take (k - pad) s,
      )

  scale_down-turns : (fuel : ℕ) (x : M.Carrier) (e : ℕ) → (scale_down M fuel x e).1 ≤ fuel + e
  unfolding scale_down
  scale_down-turns zero x e = omega arith
  scale_down-turns (suc fuel) x e =
      let ih = scale_down-turns fuel (M.div x (ten M)) (e + 1) in
      elim (Bool-cases (M.at_least x (ten M))) [
        | inl t ↦ rw t (omega arith)
        | inr t ↦ rw t (omega arith)
      ]

  scale_up-turns : (fuel : ℕ) (x : M.Carrier) (e : ℕ) → (scale_up M fuel x e).1 ≤ fuel + e
  unfolding scale_up
  scale_up-turns zero x e = omega arith
  scale_up-turns (suc fuel) x e =
      let ih = scale_up-turns fuel (M.mul x (ten M)) (e + 1) in
      elim (Bool-cases (M.less x (M.of_ull 1))) [
        | inl t ↦ rw t (omega arith)
        | inr t ↦ rw t (omega arith)
      ]

  if_small : (b : Bool) (n : ℕ) → n + 1 < 1000 → (if b then n + 1 else n) < 1000
  if_small true n h = h
  if_small false n h = omega arith

  -- The exponents of finite doubles are between -324 and 308.
  InRange : Type 0
  InRange = (x : M.Carrier) → (M.decades x ≤ 400) × (M.decimals x ≤ 400)

  efmt-Small :
      InRange
      → (x : M.Carrier) (k : ℕ)
      → (length (format_efmt_digits M x k).0 ≡ k) × Small (format_efmt_digits M x k).1
  unfolding format_efmt_digits InRange
  efmt-Small range x k =
      let down = scale_down M (M.decades x) x 0 in
      let up = scale_up M (M.decimals down.0) down.0 0 in
      let a = scale_down-turns (M.decades x) x 0 in
      let b = scale_up-turns (M.decimals down.0) down.0 0 in
      (
        to_digits-length k _,
        sub_ℕ-Small _ up.1 (if_small (M.at_least _ (ten M)) down.1 (omega (arith, a, (range x).0)))
            (omega (arith, b, (range down.0).1)),
      )

  mantissa-Small :
      InRange → (x : M.Carrier) (k : ℕ) → (length (mantissa M x k).0 ≡ k) × Small (mantissa M x k).1
  unfolding mantissa Small
  mantissa-Small range x k = elim (Bool-cases (M.equal x (M.of_ull 0))) [
    | inl t ↦ rw t (length-replicate k zero_digit, omega arith)
    | inr t ↦ rw t (efmt-Small range x k)
  ]

  fixed_text-length :
      (alt : Bool) (prec : Option ℕ) (x : M.Carrier) → length (fixed_text M alt prec x) ≤ 64
  unfolding fixed_text
  fixed_text-length alt prec x =
      let p = at_most 40 (default_six prec) in
      let p_le : p ≤ 40 = ground arith in
      let ip = M.to_ull x % 2 ^ 64 in
      let r = format_fixed_digits M (M.sub x (M.of_ull ip)) p in
      let point = if ltb 0 p || alt then dot ∷ [] else [] in
      append_bound _ (point ++ r.0) 20 41 64 (whole r.1 (M.to_ull x))
        (append_bound point r.0 1 40 41
          (if_bound (ltb 0 p || alt) (dot ∷ []) [] 1 (omega arith) (omega arith))
          (omega (arith, format_fixed_digits-length (M.sub x (M.of_ull ip)) p)) (omega arith))
        (omega arith)
    where
      whole :
          (c : Bool) (n : ℕ)
          → length (utoa_ull (if c then (n % 2 ^ 64 + 1) % 2 ^ 64 else n % 2 ^ 64) 10 false) ≤ 20
      whole true n = word_length (n % 2 ^ 64 + 1)
      whole false n = word_length n

  exp_text-length :
      InRange
      → (alt u : Bool) (prec : Option ℕ) (x : M.Carrier) → length (exp_text M alt u prec x) ≤ 64
  unfolding exp_text
  exp_text-length range alt u prec x =
      let sig = at_most 17 (default_six prec + 1) in
      let sig_le : sig ≤ 17 = ground arith in
      let r = mantissa M x sig in
      let s = mantissa-Small range x sig in
      let test = ltb 0 (default_six prec) || alt in
      let body = if test then dot ∷ drop 1 r.0 else [] in
      let b : length body ≤ 18 =
        if_bound test (dot ∷ drop 1 r.0) [] 18
          (omega (arith, drop_bound 1 r.0 17 (omega (arith, s.0)))) (omega arith) in
      append_bound (take 1 r.0) (body ++ exp_suffix u r.1) 1 23 64 (first_bound r.0)
        (append_bound body (exp_suffix u r.1) 18 5 23 b (exp_suffix-length u r.1 s.1) (omega arith))
        (omega arith)

  short_text-length :
      InRange
      → (alt u : Bool) (prec : Option ℕ) (x : M.Carrier) → length (short_text M alt u prec x) ≤ 64
  unfolding short_text
  short_text-length range alt u prec x =
      let p = at_most 17 (if default_six prec == 0 then 1 else default_six prec) in
      let p_le : p ≤ 17 = ground arith in
      let r = mantissa M x p in
      let s = mantissa-Small range x p in
      elim (Bool-cases (far p r.1)) [
        | inl t ↦ rw t (short_exp-length alt u r.0 r.1 (omega (arith, s.0)) s.1)
        | inr t ↦ rw t (short_fixed-length alt p r.0 r.1 (omega (arith, s.0)) t)
      ]

  nan_bound : (u : Bool) → length (nan_text u) ≤ 64
  nan_bound true = omega arith
  nan_bound false = omega arith

  inf_bound : (u : Bool) → length (inf_text u) ≤ 64
  inf_bound true = omega arith
  inf_bound false = omega arith

  -- Where the decimal exponents of doubles are at most 400, the text of every floating-point conversion,
  -- whatever its flags and for a precision below 2^31 - 1, so that `p + 1` is an int, fits the 64 bytes
  -- of its buffer.
  pub real_text-fits :
      ((x : M.Carrier) → (M.decades x ≤ 400) × (M.decimals x ≤ 400))
      → (alt : Bool) (prec : Option ℕ) (spec : ℕ) (x : M.Carrier) → default_six prec + 1 < 2 ^ 31
      → length (real_text M alt prec spec x) ≤ 64
  unfolding real_text InRange
  real_text-fits range alt prec spec x small =
      let u = is_upper M spec in
      let av = M.fabs x in
      if_bound (M.isnan x) _ _ 64 (nan_bound u) (
        if_bound (M.isinf x) _ _ 64 (inf_bound u) (
          if_bound (spec == low_f || spec == upper_f) _ _ 64 (fixed_text-length alt prec av) (
            if_bound (spec == low_e || spec == upper_e) _ _ 64 (exp_text-length range alt u prec av)
              (short_text-length range alt u prec av))))
