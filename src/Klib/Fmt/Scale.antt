-- ===== src/Klib/Fmt/Scale.antt =====
-- The two scaling loops of format_efmt_digits in klib/string.c end by their own tests.
use zuzu.Base.{
  ℕ, zero, suc, ◌+◌, ◌≤◌, ◌<◌, ◌≡◌, refl, Bool, true, false, not, ◌&&◌, ◌||◌, ◌==◌, arith,
  Bool-cases, inl, inr,
}
use zuzu.Klib.Ascii.{low_f, upper_f}
use zuzu.Klib.Fmt.Double.{Doubles, ten, scale_down, scale_up, loops_end, cut_off}

module _ (M : Doubles) where
  -- Neither zero nor negative, not infinite.
  pub record IsFinite (x : M.Carrier) : Type 0 where
    pub positive : M.less (M.of_ull 0) x ≡ true
    pub finite : M.isinf x ≡ false

  -- What the loops rely on: a division by ten of a finite number from ten on, and a multiplication by ten
  -- of one below one, are finite and nearer to their end.
  pub record IsScaling : Type 0 where
    pub divides :
        (x : M.Carrier)
        → IsFinite x
        → M.at_least x (ten M) ≡ true
        → (M.decades (M.div x (ten M)) < M.decades x) × IsFinite (M.div x (ten M))
    pub multiplies :
        (x : M.Carrier)
        → IsFinite x
        → M.less x (M.of_ull 1) ≡ true
        → (M.decimals (M.mul x (ten M)) < M.decimals x) × IsFinite (M.mul x (ten M))

  module _ (scaling : IsScaling) where
    down_ends :
        (n : ℕ) (x : M.Carrier) (e : ℕ)
        → M.decades x ≤ n
        → IsFinite x
        → (M.at_least (scale_down M n x e).0 (ten M) ≡ false) × IsFinite (scale_down M n x e).0
    unfolding scale_down
    down_ends zero x e le f = elim (Bool-cases (M.at_least x (ten M))) [
      | inl t ↦ absurd (omega (arith, (scaling.divides x f t).0))
      | inr t ↦ (t, f)
    ]
    down_ends (suc n) x e le f = elim (Bool-cases (M.at_least x (ten M))) [
      | inl t ↦
          let s = scaling.divides x f t in
          rw t (down_ends n (M.div x (ten M)) (e + 1) (omega (arith, s.0)) s.1)
      | inr t ↦ rw t (t, f)
    ]

    up_ends :
        (n : ℕ) (x : M.Carrier) (e : ℕ)
        → M.decimals x ≤ n
        → IsFinite x
        → M.less (scale_up M n x e).0 (M.of_ull 1) ≡ false
    unfolding scale_up
    up_ends zero x e le f = elim (Bool-cases (M.less x (M.of_ull 1))) [
      | inl t ↦ absurd (omega (arith, (scaling.multiplies x f t).0))
      | inr t ↦ t
    ]
    up_ends (suc n) x e le f = elim (Bool-cases (M.less x (M.of_ull 1))) [
      | inl t ↦
          let s = scaling.multiplies x f t in
          rw t (up_ends n (M.mul x (ten M)) (e + 1) (omega (arith, s.0)) s.1)
      | inr t ↦ rw t t
    ]

  -- What the formatter relies on: the scaling, and that the magnitude of a number that is neither NaN nor
  -- infinite nor zero is positive and finite.
  pub record IsArithmetic : Type 0 where
    pub scaling : IsScaling
    pub magnitude :
        (x : M.Carrier)
        → M.isnan x ≡ false
        → M.isinf x ≡ false
        → M.equal (M.fabs x) (M.of_ull 0) ≡ false
        → IsFinite (M.fabs x)

  -- For a positive finite number, the turns that format_efmt_digits allows its loops are enough: the first
  -- ends below ten, the second at one or more.
  pub scale_loops-ends :
      IsScaling
      → (x : M.Carrier) → IsFinite x
      → (M.at_least (scale_down M (M.decades x) x 0).0 (ten M) ≡ false)
        × (M.less
              (scale_up M
                (M.decimals (scale_down M (M.decades x) x 0).0)
                (scale_down M (M.decades x) x 0).0
                0).0
              (M.of_ull 1)
            ≡ false)
  scale_loops-ends scaling x f =
      let d = down_ends scaling (M.decades x) x 0 (omega arith) f in
      let y = (scale_down M (M.decades x) x 0).0 in
      (d.0, up_ends scaling (M.decimals y) y 0 (omega arith) d.1)

  loops_end_lem : IsScaling → (x : M.Carrier) → IsFinite x → loops_end M x ≡ true
  unfolding loops_end
  loops_end_lem scaling x f = let r = scale_loops-ends scaling x f in rw (r.0, r.1) refl

  -- No conversion goes on beyond the turns of the scaling loops.
  pub cut_off_lem : IsArithmetic → (spec : ℕ) (x : M.Carrier) → cut_off M spec x ≡ false
  cut_off_lem a spec x = elim (Bool-cases (M.isnan x)) [
    | inl n ↦ rw n refl
    | inr n ↦ elim (Bool-cases (M.isinf x)) [
      | inl i ↦ rw (n, i) refl
      | inr i ↦ elim (Bool-cases (M.equal (M.fabs x) (M.of_ull 0))) [
        | inl z ↦
            rw (n, i, z)
              (and_false (not (spec == low_f || spec == upper_f)) (not (loops_end M (M.fabs x))))
        | inr z ↦ rw (loops_end_lem a.scaling (M.fabs x) (a.magnitude x n i z)) (false_end _)
      ]
    ]
  ]
    where
      false_end : (b : Bool) → (b && not true) ≡ false
      false_end true = refl
      false_end false = refl

      and_false : (d e : Bool) → ((d && false) && e) ≡ false
      and_false true e = refl
      and_false false e = refl
