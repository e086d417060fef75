-- ===== src/Base/Bits.antt =====
-- Single bits of a machine word, by the word's binary digits: `w & (1 << k)`, `w |= 1 << k` and
-- `w &= ~(1 << k)`; and `__builtin_ctz`, the index of the lowest set bit.
use Prim.Native.Nat.{ℕ, zero, suc, ◌+◌, ◌-◌, ◌*◌, ◌/◌, ◌%◌, ◌^◌, ◌≤◌, ◌<◌}
use native.Mathlib.Nat.{pow-suc}
use mathlib.Core.Path.{◌≡◌, refl, ap}
use mathlib.Core.Logic.{◌≢◌, inl, inr}
use mathlib.Core.Bool.{Bool, true, false}
use native.Mathlib.Omega.{arith}
use zuzu.Base.Tests.{◌==◌, if◌then◌else◌, Bool-cases}

-- Is bit `k` of `w` set?
unfoldable pub test_bit : ℕ → ℕ → Bool
test_bit w zero = w % 2 == 1
test_bit w (suc k) = test_bit (w / 2) k

unfoldable pub set_bit : ℕ → ℕ → ℕ
set_bit w zero = 2 * (w / 2) + 1
set_bit w (suc k) = 2 * set_bit (w / 2) k + w % 2

unfoldable pub clear_bit : ℕ → ℕ → ℕ
clear_bit w zero = 2 * (w / 2)
clear_bit w (suc k) = 2 * clear_bit (w / 2) k + w % 2

-- `__builtin_ctz` of a word of `n` bits; `n` where no bit is set.
unfoldable pub ctz : ℕ → ℕ → ℕ
ctz zero w = 0
ctz (suc n) w = if w % 2 == 1 then 0 else suc (ctz n (w / 2))

-- `~w` of a word of `n` bits.
abbrev pub complement : ℕ → ℕ → ℕ
complement n w = 2 ^ n - 1 - w

pub test_bit-set_bit :
    (w k j : ℕ) → test_bit (set_bit w k) j ≡ (if k == j then true else test_bit w j)
unfolding test_bit set_bit
test_bit-set_bit w zero zero = ground arith
test_bit-set_bit w zero (suc j) =
    let e : set_bit w zero / 2 ≡ w / 2 = omega arith in ground (arith, ap (λ v. test_bit v j) e)
test_bit-set_bit w (suc k) zero = ground arith
test_bit-set_bit w (suc k) (suc j) =
    let e : (2 * set_bit (w / 2) k + w % 2) / 2 ≡ set_bit (w / 2) k = omega arith in
    ground (arith, ap (λ v. test_bit v j) e, test_bit-set_bit (w / 2) k j)

pub test_bit-clear_bit :
    (w k j : ℕ) → test_bit (clear_bit w k) j ≡ (if k == j then false else test_bit w j)
unfolding test_bit clear_bit
test_bit-clear_bit w zero zero = ground arith
test_bit-clear_bit w zero (suc j) =
    let e : clear_bit w zero / 2 ≡ w / 2 = omega arith in ground (arith, ap (λ v. test_bit v j) e)
test_bit-clear_bit w (suc k) zero = ground arith
test_bit-clear_bit w (suc k) (suc j) =
    let e : (2 * clear_bit (w / 2) k + w % 2) / 2 ≡ clear_bit (w / 2) k = omega arith in
    ground (arith, ap (λ v. test_bit v j) e, test_bit-clear_bit (w / 2) k j)

pub test_bit-zero : (j : ℕ) → test_bit 0 j ≡ false
unfolding test_bit
test_bit-zero zero = refl
test_bit-zero (suc j) = test_bit-zero j

pub pow_pos : (n : ℕ) → 0 < 2 ^ n
pow_pos zero = omega arith
pow_pos (suc n) = omega (arith, pow-suc 2 n, pow_pos n)

-- `x & ((1 << r) - 1)`.
unfoldable pub low_bits : ℕ → ℕ → ℕ
low_bits x zero = 0
low_bits x (suc r) = 2 * low_bits (x / 2) r + x % 2

-- Setting or clearing a bit of a word of `n` bits leaves a word of `n` bits.
pub set_bit-lt : (n w k : ℕ) → k < n → w < 2 ^ n → set_bit w k < 2 ^ n
unfolding set_bit
set_bit-lt zero w k h b = absurd (omega arith)
set_bit-lt (suc n) w zero h b = omega (arith, pow-suc 2 n)
set_bit-lt (suc n) w (suc k) h b =
    omega (arith, pow-suc 2 n, set_bit-lt n (w / 2) k (omega arith) (omega (arith, pow-suc 2 n)))

pub clear_bit-le : (w k : ℕ) → clear_bit w k ≤ w
unfolding clear_bit
clear_bit-le w zero = omega arith
clear_bit-le w (suc k) = omega (arith, clear_bit-le (w / 2) k)

pub test_bit-ones : (n j : ℕ) → j < n → test_bit (2 ^ n - 1) j ≡ true
unfolding test_bit
test_bit-ones zero j h = absurd (omega arith)
test_bit-ones (suc n) zero h =
    let e : (2 ^ suc n - 1) % 2 ≡ 1 = omega (arith, pow-suc 2 n, pow_pos n) in rw e
test_bit-ones (suc n) (suc j) h =
    let e : (2 ^ suc n - 1) / 2 ≡ 2 ^ n - 1 = omega (arith, pow-suc 2 n, pow_pos n) in
    rw e (test_bit-ones n j (omega arith))

-- In a word of `n` bits that are not all set, `ctz` of the complement is the lowest clear bit.
pub record IsLowestClear (n w k : ℕ) : Type 0 where
  pub within : k < n
  pub clear : test_bit w k ≡ false
  pub below : (j : ℕ) → j < k → test_bit w j ≡ true

lower : {n w k : ℕ} → IsLowestClear n (w / 2) k → w % 2 ≡ 1 → IsLowestClear (suc n) w (suc k)
unfolding test_bit
lower {n} {w} {k} l bit = record {
  within = omega (arith, l.within);
  clear = l.clear;
  below = below;
}
  where
    below : (j : ℕ) → j < suc k → test_bit w j ≡ true
    below zero lt = rw bit
    below (suc j) lt = l.below j (omega arith)

-- `ctz` of a nonzero `~w & ((1 << r) - 1)` is the lowest clear bit of `w` below `r`.
pub ctz-IsLowestClear :
    (n r w : ℕ)
    → r ≤ n
    → w < 2 ^ n
    → low_bits (complement n w) r ≢ 0
    → IsLowestClear r w (ctz n (low_bits (complement n w) r))
unfolding test_bit ctz low_bits
ctz-IsLowestClear n zero w le h ne = absurd (ne refl)
ctz-IsLowestClear zero (suc r) w le h ne = absurd (omega arith)
ctz-IsLowestClear (suc n) (suc r) w le h ne =
    let half : complement (suc n) w / 2 ≡ complement n (w / 2) =
      omega (arith, pow-suc 2 n, pow_pos n) in
    let masked = low_bits (complement n (w / 2)) r in
    rw half (elim (Bool-cases (complement (suc n) w % 2 == 1)) [
      | inl odd ↦
          let test : (2 * masked + complement (suc n) w % 2) % 2 == 1 ≡ true = ground arith in
          rw test (record {
            within = omega arith;
            clear = ground (arith, pow-suc 2 n, pow_pos n);
            below = λ j lt. absurd (omega arith);
          })
      | inr even ↦
          let c : complement (suc n) w % 2 ≡ 0 = ground arith in
          let test : (2 * masked + complement (suc n) w % 2) % 2 == 1 ≡ false = ground arith in
          let rest : (2 * masked + complement (suc n) w % 2) / 2 ≡ masked = omega arith in
          let ne' : masked ≢ 0 = λ z. ne (rw half (omega arith)) in
          rw (test, rest)
            (lower (ctz-IsLowestClear n r (w / 2) (omega arith) (omega (arith, pow-suc 2 n)) ne')
              (omega (arith, pow-suc 2 n, pow_pos n)))
    ])

pub low_bits_self : (n x : ℕ) → x < 2 ^ n → low_bits x n ≡ x
unfolding low_bits
low_bits_self zero x h = omega arith
low_bits_self (suc n) x h =
    omega (arith, pow-suc 2 n, low_bits_self n (x / 2) (omega (arith, pow-suc 2 n)))

-- Where it is zero, all bits below `r` are set.
pub test_bit_of_low_bits :
    (n r w j : ℕ)
    → r ≤ n
    → w < 2 ^ n
    → low_bits (complement n w) r ≡ 0
    → j < r
    → test_bit w j ≡ true
unfolding test_bit low_bits
test_bit_of_low_bits n zero w j le h e lt = absurd (omega arith)
test_bit_of_low_bits zero (suc r) w j le h e lt = absurd (omega arith)
test_bit_of_low_bits (suc n) (suc r) w zero le h e lt = ground (arith, pow-suc 2 n, pow_pos n)
test_bit_of_low_bits (suc n) (suc r) w (suc j) le h e lt =
    let half : complement (suc n) w / 2 ≡ complement n (w / 2) =
      omega (arith, pow-suc 2 n, pow_pos n) in
    let e' = rw half at e in
    test_bit_of_low_bits n r (w / 2) j (omega arith) (omega (arith, pow-suc 2 n)) (omega arith)
      (omega arith)
