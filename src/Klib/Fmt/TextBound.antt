-- ===== src/Klib/Fmt/TextBound.antt =====
-- The lengths of the parts of a floating-point text of vstrfmt in klib/string.c.
use zuzu.Base.{
  ℕ, suc, ◌+◌, ◌-◌, ◌%◌, ◌^◌, ◌≤◌, ◌<◌, ◌≡◌, refl, Bool, true, false, arith, ◌&&◌, ◌||◌, List, [],
  ◌∷◌, ◌++◌, ltb, leb, ◌==◌, if◌then◌else◌, length, ap, Bool-cases, inl, inr, replicate,
  length-replicate, length-append, take, length-take, drop, length-drop,
}
use zuzu.Base.Int.{ℤ, pos, negsuc, sub_ℕ}
use zuzu.Klib.Ascii.{zero_digit, nine, dot}
use zuzu.Klib.Digits.{supports, real_base, utoa_ull}
use zuzu.Klib.Numeral.{utoa_ull-IsNumeral}
use zuzu.Klib.Fmt.Double.{
  bump, strip_zeros, strip_dot, exp_digits, exp_suffix, short_exp, short_tail, short_fixed, far,
}

decimal_length : (v k : ℕ) → v < 2 ^ 64 → 0 < k → v < 10 ^ k → length (utoa_ull v 10 false) ≤ k
unfolding supports real_base
decimal_length v k h p l = (utoa_ull-IsNumeral v 10 false h refl).fits k p l

pub word_length : (v : ℕ) → length (utoa_ull (v % 2 ^ 64) 10 false) ≤ 20
word_length v = decimal_length (v % 2 ^ 64) 20 (omega arith) (omega arith) (omega arith)

pub bump-length : (s : List ℕ) → length (bump s).0 ≡ length s
unfolding bump
bump-length [] = refl
bump-length (c ∷ s) =
    let ih = bump-length s in
    elim (Bool-cases (bump s).1) [
      | inl t ↦ elim (Bool-cases (c == nine)) [
        | inl n ↦ rw (t, n) (ap suc ih)
        | inr n ↦ rw (t, n) (ap suc ih)
      ]
      | inr t ↦ rw t (ap suc ih)
    ]

strip_zeros-length : (s : List ℕ) → length (strip_zeros s) ≤ length s
unfolding strip_zeros
strip_zeros-length [] = omega arith
strip_zeros-length (c ∷ s) =
    let ih = strip_zeros-length s in
    elim (Bool-cases (length (strip_zeros s) == 0 && c == zero_digit)) [
      | inl t ↦ rw t (omega arith)
      | inr t ↦ rw t (omega arith)
    ]

strip_dot-length : (s : List ℕ) → length (strip_dot s) ≤ length s
unfolding strip_dot
strip_dot-length [] = omega arith
strip_dot-length (c ∷ s) =
    let ih = strip_dot-length s in
    elim (Bool-cases (length s == 0 && c == dot)) [
      | inl t ↦ rw t (omega arith)
      | inr t ↦ rw t (omega arith)
    ]

-- |exp10| < 1000
unfoldable pub Small : ℤ → Type 0
Small (pos n) = n < 1000
Small (negsuc n) = n + 1 < 1000

exp_digits-length : (n : ℕ) → n < 1000 → length (exp_digits n) ≤ 3
unfolding exp_digits
exp_digits-length n h =
    let e = decimal_length n 3 (omega arith) (omega arith) (omega arith) in
    elim (Bool-cases (ltb (length (utoa_ull n 10 false)) 2)) [
      | inl t ↦ rw t (ground arith)
      | inr t ↦ rw t e
    ]

pub exp_suffix-length : (u : Bool) (e : ℤ) → Small e → length (exp_suffix u e) ≤ 5
unfolding exp_suffix Small
exp_suffix-length u (pos n) h = omega (arith, exp_digits-length n h)
exp_suffix-length u (negsuc n) h = omega (arith, exp_digits-length (n + 1) h)

pub sub_ℕ-Small : (a b : ℕ) → a < 1000 → b < 1000 → Small (sub_ℕ a b)
unfolding Small
sub_ℕ-Small a b h k = elim (Bool-cases (leb b a)) [
  | inl t ↦ rw t (omega arith)
  | inr t ↦ rw t (ground arith)
]

-- The bound of a text that depends on a test.
pub if_bound :
    (b : Bool) (s t : List ℕ) (n : ℕ)
    → length s ≤ n
    → length t ≤ n
    → length (if b then s else t) ≤ n
if_bound true s t n h k = h
if_bound false s t n h k = k

pub append_bound :
    (s t : List ℕ) (a b n : ℕ) → length s ≤ a → length t ≤ b → a + b ≤ n → length (s ++ t) ≤ n
append_bound s t a b n h k le = omega (arith, length-append s t)

take_bound : (n : ℕ) (s : List ℕ) (k : ℕ) → length s ≤ k → length (take n s) ≤ k
take_bound n s k h = omega (arith, length-take n s)

pub drop_bound : (n : ℕ) (s : List ℕ) (k : ℕ) → length s ≤ k → length (drop n s) ≤ k
drop_bound n s k h = omega (arith, length-drop n s)

pub first_bound : (s : List ℕ) → length (take 1 s) ≤ 1
first_bound s = omega (arith, length-take 1 s)

pub short_exp-length :
    (alt u : Bool) (m : List ℕ) (e : ℤ)
    → length m ≤ 17
    → Small e
    → length (short_exp alt u m e) ≤ 64
unfolding short_exp
short_exp-length alt u m e h k =
    let rest = drop_bound 1 m 17 h in
    let frac = if alt then drop 1 m else strip_zeros (drop 1 m) in
    let f : length frac ≤ 17 =
      if_bound alt (drop 1 m) (strip_zeros (drop 1 m)) 17 rest
        (omega (arith, strip_zeros-length (drop 1 m))) in
    let body = if ltb 0 (length frac) || alt then dot ∷ frac else [] in
    let b : length body ≤ 18 =
      if_bound (ltb 0 (length frac) || alt) (dot ∷ frac) [] 18 (omega arith) (omega arith) in
    append_bound (take 1 m) (body ++ exp_suffix u e) 1 23 64 (first_bound m)
      (append_bound body (exp_suffix u e) 18 5 23 b (exp_suffix-length u e k) (omega arith))
      (omega arith)

short_tail-length : (alt : Bool) (s : List ℕ) (n : ℕ) → length s ≤ n → length (short_tail alt s) ≤ n
unfolding short_tail
short_tail-length alt s n h =
    if_bound alt s (strip_dot (strip_zeros s)) n h
      (omega (arith, strip_dot-length (strip_zeros s), strip_zeros-length s))

pub short_fixed-length :
    (alt : Bool) (p : ℕ) (m : List ℕ) (e : ℤ)
    → length m ≤ 17
    → far p e ≡ false
    → length (short_fixed alt p m e) ≤ 64
unfolding short_fixed
short_fixed-length alt p m (pos n) h k =
    let t = take_bound (n + 1) m 17 h in
    let whole = take (n + 1) m ++ (dot ∷ drop (n + 1) m) in
    if_bound (ltb 0 (p - 1 - n) || alt) (short_tail alt whole) (take (n + 1) m) 64
      (short_tail-length alt whole 64 (
        append_bound (take (n + 1) m) (dot ∷ drop (n + 1) m) 17 18 64 t
          (omega (arith, drop_bound (n + 1) m 17 h)) (omega arith)))
      (omega arith)
short_fixed-length alt p m (negsuc n) h k =
    let near : n < 4 = ground arith in
    short_tail-length alt (zero_digit ∷ dot ∷ (replicate n zero_digit ++ take p m)) 64 (
      omega (
        arith,
        append_bound (replicate n zero_digit) (take p m) n 17 21
            (omega (arith, length-replicate n zero_digit)) (take_bound p m 17 h) (omega arith),
      ))
