-- ===== src/Klib/Mem.antt =====
-- The memory functions of klib/mem.c, on one memory of bytes with pointers as indices into it. A read
-- or a write outside the memory is undefined; the theorems ask that there is none.
use zuzu.Base.{
  ℕ, zero, suc, ◌+◌, ◌%◌, ◌≤◌, ◌<◌, ◌≡◌, refl, ◌∙◌, ◌≢◌, ◌⊎◌, inl, inr, true, ◌||◌, Option, none,
  some, List, arith, ltb, ◌==◌, if◌then◌else◌, Bool-cases, length, get_or, set, length-set,
  get_or-set_self, get_or-set_ne,
}
use native.Mathlib.Decide.{ℕ_discrete}
use zuzu.Base.Int.{ℤ, pos, negsuc}

-- The loop for a destination below the source, upwards.
unfoldable pub copy_up : List ℕ → ℕ → ℕ → ℕ → List ℕ
copy_up mem d s zero = mem
copy_up mem d s (suc n) = copy_up (set mem d (get_or mem s 0)) (d + 1) (s + 1) n

-- The loop for a destination above the source, downwards: with `n` bytes left, the last of them.
unfoldable pub copy_down : List ℕ → ℕ → ℕ → ℕ → List ℕ
copy_down mem d s zero = mem
copy_down mem d s (suc n) = copy_down (set mem (d + n) (get_or mem (s + n) 0)) d s n

unfoldable pub memmove : List ℕ → ℕ → ℕ → ℕ → List ℕ
memmove mem dest src n =
    if n == 0 || dest == src
    then mem
    else if ltb dest src
    then copy_up mem dest src n
    else if ltb src dest
    then copy_down mem dest src n
    else mem

unfoldable pub memcmp : List ℕ → ℕ → ℕ → ℕ → ℤ
memcmp mem s1 s2 zero = pos 0
memcmp mem s1 s2 (suc count) =
    let rest = memcmp mem (s1 + 1) (s2 + 1) count in
    if get_or mem s1 0 == get_or mem s2 0
    then rest
    else if ltb (get_or mem s1 0) (get_or mem s2 0)
    then negsuc 0
    else pos 1

unfoldable pub memchr : List ℕ → ℕ → ℕ → ℕ → Option ℕ
memchr mem p c zero = none
memchr mem p c (suc n) =
    let rest = memchr mem (p + 1) c n in if get_or mem p 0 == c % 256 then some p else rest

-- The `n` bytes at `dest` are those that stood at `src`, and all other bytes are as before.
pub record Moved (mem : List ℕ) (dest src n : ℕ) (mem' : List ℕ) : Type 0 where
  pub size_eq : length mem' ≡ length mem
  pub copied_bytes : (i : ℕ) → i < n → get_or mem' (dest + i) 0 ≡ get_or mem (src + i) 0
  pub other_bytes : (j : ℕ) → (j < dest) ⊎ (dest + n ≤ j) → get_or mem' j 0 ≡ get_or mem j 0

outside : (j a b : ℕ) → (j < a) ⊎ (b ≤ j) → (k : ℕ) → a ≤ k → k < b → k ≢ j
outside j a b (inl h) k le lt e = absurd (omega arith)
outside j a b (inr h) k le lt e = absurd (omega arith)

widen_out : (j a b a' b' : ℕ) → (j < a) ⊎ (b ≤ j) → a ≤ a' → b' ≤ b → (j < a') ⊎ (b' ≤ j)
widen_out j a b a' b' (inl h) l r = inl (omega arith)
widen_out j a b a' b' (inr h) l r = inr (omega arith)

copy_up-Moved :
    (n : ℕ) (mem : List ℕ) (d s : ℕ)
    → d < s
    → d + n ≤ length mem
    → Moved mem d s n (copy_up mem d s n)
unfolding copy_up
copy_up-Moved zero mem d s lt le = record {
  size_eq = refl;
  copied_bytes = λ i h. absurd (omega arith);
  other_bytes = λ j h. refl;
}
copy_up-Moved (suc n) mem d s lt le =
    let mem1 = set mem d (get_or mem s 0) in
    let l1 = length-set mem d (get_or mem s 0) in
    let ih = copy_up-Moved n mem1 (d + 1) (s + 1) (omega arith) (omega (arith, l1)) in
    record {
      size_eq = ih.size_eq ∙ l1;
      copied_bytes = bytes ih;
      other_bytes = λ j h.
          ih.other_bytes j
            (widen_out j d (d + suc n) (d + 1) (d + 1 + n) h (omega arith) (omega arith))
          ∙ get_or-set_ne mem d j (get_or mem s 0) 0
              (outside j d (d + suc n) h d (omega arith) (omega arith));
    }
  where
    bytes :
        Moved
          (set mem d (get_or mem s 0))
          (d + 1)
          (s + 1)
          n
          (copy_up (set mem d (get_or mem s 0)) (d + 1) (s + 1) n)
        → (i : ℕ) → i < suc n
        → get_or (copy_up (set mem d (get_or mem s 0)) (d + 1) (s + 1) n) (d + i) 0
          ≡ get_or mem (s + i) 0
    bytes ih zero h =
        let z : d + 0 ≡ d = omega arith in
        let y : s + 0 ≡ s = omega arith in
        rw (z, y)
          (ih.other_bytes d (inl (omega arith))
            ∙ get_or-set_self mem d (get_or mem s 0) 0 (omega arith))
    bytes ih (suc i) h =
        let z : d + suc i ≡ d + 1 + i = omega arith in
        let y : s + suc i ≡ s + 1 + i = omega arith in
        rw (z, y)
          (ih.copied_bytes i (omega arith)
            ∙ get_or-set_ne mem d (s + 1 + i) (get_or mem s 0) 0 (λ e. absurd (omega arith)))

copy_down-Moved :
    (n : ℕ) (mem : List ℕ) (d s : ℕ)
    → s < d
    → d + n ≤ length mem
    → Moved mem d s n (copy_down mem d s n)
unfolding copy_down
copy_down-Moved zero mem d s lt le = record {
  size_eq = refl;
  copied_bytes = λ i h. absurd (omega arith);
  other_bytes = λ j h. refl;
}
copy_down-Moved (suc n) mem d s lt le =
    let v = get_or mem (s + n) 0 in
    let l1 = length-set mem (d + n) v in
    let ih = copy_down-Moved n (set mem (d + n) v) d s lt (omega (arith, l1)) in
    record {
      size_eq = ih.size_eq ∙ l1;
      copied_bytes = λ i h. elim (ℕ_discrete i n) [
        | yes e ↦ rw e (
            ih.other_bytes (d + n) (inr (omega arith))
            ∙ get_or-set_self mem (d + n) v 0 (omega arith))
        | no ne ↦
            let below : i < n = elim (Bool-cases (ltb i n)) [
              | inl t ↦ ground arith
              | inr t ↦ absurd (ne (ground arith))
            ] in
            ih.copied_bytes i below
            ∙ get_or-set_ne mem (d + n) (s + i) v 0 (λ e. absurd (omega arith))
      ];
      other_bytes = λ j h.
          ih.other_bytes j (widen_out j d (d + suc n) d (d + n) h (omega arith) (omega arith))
          ∙ get_or-set_ne mem (d + n) j v 0
              (outside j d (d + suc n) h (d + n) (omega arith) (omega arith));
    }

same_place : (mem : List ℕ) (d n : ℕ) → Moved mem d d n mem
same_place mem d n = record {
  size_eq = refl;
  copied_bytes = λ i h. refl;
  other_bytes = λ j h. refl;
}

-- memmove copies `n` bytes from `src` to `dest` as if through a buffer, however the two overlap.
pub memmove-Moved :
    (mem : List ℕ) (dest src n : ℕ)
    → dest + n ≤ length mem
    → src + n ≤ length mem
    → Moved mem dest src n (memmove mem dest src n)
unfolding memmove
memmove-Moved mem dest src n le _ = elim (Bool-cases (n == 0)) [
  | inl z ↦
      let e : n ≡ 0 = ground arith in
      rw e (record {
        size_eq = refl;
        copied_bytes = λ i h. absurd (omega arith);
        other_bytes = λ j h. refl;
      })
  | inr nz ↦ elim (Bool-cases (dest == src)) [
    | inl e ↦ let q : dest ≡ src = ground arith in rw (nz, e) (rw q (same_place mem src n))
    | inr ne ↦ elim (Bool-cases (ltb dest src)) [
      | inl u ↦ rw (nz, ne, u) (copy_up-Moved n mem dest src (ground arith) le)
      | inr nu ↦
          let d : ltb src dest ≡ true = ground arith in
          rw (nz, ne, nu, d) (copy_down-Moved n mem dest src (ground arith) le)
    ]
  ]
]
