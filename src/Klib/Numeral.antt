-- ===== src/Klib/Numeral.antt =====
-- What utoa_ull of klib/string.c promises: its text is the numeral of the number.
use zuzu.Base.{
  ℕ, zero, suc, ◌+◌, ◌-◌, ◌*◌, ◌/◌, ◌%◌, ◌^◌, ◌≤◌, ◌<◌, ◌≡◌, refl, sym, ◌∙◌, ap, ◌≢◌, inl, inr,
  Bool, true, false, List, [], ◌∷◌, ◌++◌, arith, ltb, ◌==◌, if◌then◌else◌, Bool-cases, length,
  reverse, length-reverse, get_or, length-append,
}
use native.Mathlib.Nat.{
  div-add-mod', pow-suc, pow-zero, mod-lt, mul-le-mul_left, div-lt_iff_lt-mul, mul_comm,
}
use zuzu.Klib.Digits.{
  digs, digs_lo, digs_hi, digit_loop, digits_of, real_base, supports, utoa_ull, word_turns,
}

-- The number that a digit stands for.
abbrev pub digit_value : ℕ → ℕ
digit_value c = if ltb c 58 then c - 48 else if ltb c 97 then c - 55 else c - 87

-- A numeral is read from the left.
unfoldable pub value_from : ℕ → ℕ → List ℕ → ℕ
value_from base acc [] = acc
value_from base acc (c ∷ s) = value_from base (acc * base + digit_value c) s

abbrev pub value : ℕ → List ℕ → ℕ
value base s = value_from base 0 s

-- The first digit is not 0.
abbrev pub NoLeadingZero : List ℕ → Type 0
NoLeadingZero [] = Unit
NoLeadingZero (c ∷ s) = digit_value c ≢ 0

-- The characters of a table stand for i, i + 1, ...
Codes : ℕ → List ℕ → Type 0
Codes i [] = Unit
Codes i (c ∷ t) = (digit_value c ≡ i) × Codes (i + 1) t

code_at :
    (i : ℕ) (t : List ℕ) (d : ℕ) → Codes i t → d < length t → digit_value (get_or t d 0) ≡ i + d
unfolding Codes
code_at i [] d h lt = absurd (omega arith)
code_at i (c ∷ t) zero h lt = omega (arith, h.0)
code_at i (c ∷ t) (suc d) h lt = omega (arith, code_at (i + 1) t d h.1 (omega arith))

digs-value : (u : Bool) (d : ℕ) → d < 16 → digit_value (digs u d) ≡ d
unfolding digs Codes
digs-value true d h =
    let codes : Codes 0 digs_hi = (
      refl,
      (
        refl,
        (
          refl,
          (
            refl,
            (
              refl,
              (
                refl,
                (refl, (refl, (refl, (refl, (refl, (refl, (refl, (refl, (refl, (refl, tt)))))))))),
              ),
            ),
          ),
        ),
      ),
    ) in
    omega (arith, code_at 0 digs_hi d codes h)
digs-value false d h =
    let codes : Codes 0 digs_lo = (
      refl,
      (
        refl,
        (
          refl,
          (
            refl,
            (
              refl,
              (
                refl,
                (refl, (refl, (refl, (refl, (refl, (refl, (refl, (refl, (refl, (refl, tt)))))))))),
              ),
            ),
          ),
        ),
      ),
    ) in
    omega (arith, code_at 0 digs_lo d codes h)

value_from-append :
    (base acc : ℕ) (s : List ℕ) (c : ℕ)
    → value_from base acc (s ++ (c ∷ [])) ≡ value_from base acc s * base + digit_value c
unfolding value_from
value_from-append base acc [] c = refl
value_from-append base acc (x ∷ s) c = value_from-append base (acc * base + digit_value x) s c

-- A division by a base of at least 2 halves a number.
pub halves : (base v n : ℕ) → 2 ≤ base → v < 2 ^ suc n → v / base < 2 ^ n
halves base v n h lt =
    let d = div-add-mod' v base in
    let m = mul-le-mul_left (v / base) h in omega (arith, pow-suc 2 n, d, m)

loop-value :
    (fuel base : ℕ) (u : Bool) (v : ℕ)
    → 2 ≤ base
    → base ≤ 16
    → v < 2 ^ fuel
    → value base (reverse (digit_loop fuel base u v)) ≡ v
unfolding value_from digit_loop
loop-value zero base u v lo hi lt = omega arith
loop-value (suc n) base u v lo hi lt = elim (Bool-cases (v == 0)) [
  | inl z ↦ rw z (ground arith)
  | inr nz ↦
      let digit : v % base < 16 = let m = mod-lt v {m = base} (omega arith) in omega arith in
      rw
        (
          nz,
          value_from-append base 0 (reverse (digit_loop n base u (v / base))) (digs u (v % base)),
          loop-value n base u (v / base) lo hi (halves base v n lo lt),
          digs-value u (v % base) digit,
        )
        (div-add-mod' v base)
]

lead-append : (s : List ℕ) (c : ℕ) → NoLeadingZero s → 0 < length s → NoLeadingZero (s ++ (c ∷ []))
lead-append [] c l lt = absurd (omega arith)
lead-append (x ∷ s) c l lt = l

length-snoc : (s : List ℕ) (c : ℕ) → length (s ++ (c ∷ [])) ≡ suc (length s)
length-snoc s c = omega (arith, length-append s (c ∷ []))

record Led (s : List ℕ) : Type 0 where
  pub lead : NoLeadingZero s
  pub some_digit : 0 < length s

loop-Led :
    (fuel base : ℕ) (u : Bool) (v : ℕ)
    → 2 ≤ base
    → base ≤ 16
    → v < 2 ^ fuel
    → v ≢ 0
    → Led (reverse (digit_loop fuel base u v))
unfolding digit_loop
loop-Led zero base u v lo hi lt ne = absurd (ne (omega arith))
loop-Led (suc n) base u v lo hi lt ne =
    let z : v == 0 ≡ false = ground arith in
    let digit : v % base < 16 = let m = mod-lt v {m = base} (omega arith) in omega arith in
    let c = digs u (v % base) in
    let whole = div-add-mod' v base in
    rw z (elim (Bool-cases (v / base == 0)) [
      | inl last ↦
          let q : v / base ≡ 0 = ground arith in
          let m : v % base ≡ v = omega (arith, whole, ap (λ x. x * base) q) in
          rw (q, loop_zero n)
            (record {
              lead = λ bad. ne (sym m ∙ sym (digs-value u (v % base) digit) ∙ bad);
              some_digit = omega arith;
            })
      | inr more ↦
          let ih =
            loop-Led n base u (v / base) lo hi (halves base v n lo lt)
              (λ e. absurd (ground arith)) in
          record {
            lead = lead-append (reverse (digit_loop n base u (v / base))) c ih.lead ih.some_digit;
            some_digit = omega (arith, length-snoc (reverse (digit_loop n base u (v / base))) c);
          }
    ])
  where
    loop_zero : (k : ℕ) → digit_loop k base u 0 ≡ []
    loop_zero zero = refl
    loop_zero (suc k) = refl

loop-fits :
    (fuel base : ℕ) (u : Bool) (v k : ℕ)
    → 2 ≤ base
    → v < base ^ k
    → length (digit_loop fuel base u v) ≤ k
unfolding digit_loop
loop-fits zero base u v k lo lt = omega arith
loop-fits (suc n) base u v zero lo lt =
    let z : v ≡ 0 = omega (arith, pow-zero base) in rw z (omega arith)
loop-fits (suc n) base u v (suc k) lo lt = elim (Bool-cases (v == 0)) [
  | inl z ↦ rw z (omega arith)
  | inr nz ↦
      let q : v / base < base ^ k =
        (div-lt_iff_lt-mul {k = base} {x = v} {y = base ^ k} (omega arith)).1
          (omega (arith, pow-suc base k, mul_comm base (base ^ k))) in
      rw nz (omega (arith, loop-fits n base u (v / base) k lo q))
]

-- The numeral of `v` in a base: it reads back as `v`, does not start with 0 unless it is 0, and has at
-- most `k` digits where `v` is below the k-th power of the base.
pub record IsNumeral (base v : ℕ) (s : List ℕ) : Type 0 where
  pub value_eq : value base s ≡ v
  pub lead : v ≢ 0 → NoLeadingZero s
  pub some_digit : 0 < length s
  pub fits : (k : ℕ) → 0 < k → v < base ^ k → length s ≤ k

digits-IsNumeral :
    (base v : ℕ) (u : Bool)
    → 2 ≤ base
    → base ≤ 16
    → v < 2 ^ 64
    → IsNumeral base v (reverse (digits_of base u v))
unfolding value_from digits_of
digits-IsNumeral base v u lo hi lt = elim (Bool-cases (v == 0)) [
  | inl z ↦
      let e : v ≡ 0 = ground arith in
      rw z (record {
        value_eq = omega arith;
        lead = λ ne. absurd (ne e);
        some_digit = omega arith;
        fits = λ k pos l. omega arith;
      })
  | inr nz ↦
      let led = loop-Led word_turns base u v lo hi lt (λ e. absurd (ground arith)) in
      rw nz (record {
        value_eq = loop-value word_turns base u v lo hi lt;
        lead = λ ne. led.lead;
        some_digit = led.some_digit;
        fits = λ k pos l. omega (
          arith,
          length-reverse (digit_loop word_turns base u v),
          loop-fits word_turns base u v k lo l,
        );
      })
]

supports-range : (base : ℕ) → supports base ≡ true → (2 ≤ base) × (base ≤ 16)
unfolding supports
supports-range base h = (ground arith, ground arith)

-- In a base that the code supports, with every base below 2 standing for 10, utoa_ull writes the numeral
-- of each 64-bit number.
pub utoa_ull-IsNumeral :
    (v base : ℕ) (u : Bool)
    → v < 2 ^ 64
    → supports (real_base base) ≡ true
    → IsNumeral (real_base base) v (utoa_ull v base u)
unfolding utoa_ull
utoa_ull-IsNumeral v base u lt ok =
    let r = supports-range (real_base base) ok in
    rw ok (digits-IsNumeral (real_base base) v u r.0 r.1 lt)
