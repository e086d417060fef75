-- ===== src/Klib/Fmt/Snprintf.antt =====
-- What vsnprintf of klib/snprintf.c promises: the text cut to the buffer, and nothing beyond.
use zuzu.Base.{
  ℕ, zero, suc, ◌+◌, ◌-◌, ◌%◌, ◌^◌, ◌≤◌, ◌<◌, ◌≡◌, refl, true, false, arith, ◌≢◌, none, some, List,
  [], ◌∷◌, ltb, if◌then◌else◌, length, ◌∙◌, Bool-cases, inl, inr, set, get_or, length-set,
  get_or-set_self, get_or-set_ne,
}
use zuzu.Base.Int.{pos, to_signed}
use zuzu.Klib.Fmt.Args.{Arg}
use zuzu.Klib.Fmt.Double.{Doubles}
use zuzu.Klib.Fmt.Loop.{printed, vstrfmt}
use zuzu.Klib.Fmt.Bounded.{
  snprintf_outc, emit_all, Filled, filled, start, terminate, fill, vsnprintf,
}

-- The bytes of a buffer from which `max` may be written, after `out` was emitted from `at` on.
record Emitted (buf : List ℕ) (at max : ℕ) (out : List ℕ) (buf' : List ℕ) : Type 0 where
  pub size_eq : length buf' ≡ length buf
  pub written : (i : ℕ) → i < length out → at + i < max → get_or buf' (at + i) 0 ≡ get_or out i 0
  pub same_below : (i : ℕ) → i < at → get_or buf' i 0 ≡ get_or buf i 0
  pub same_above : (i : ℕ) → max ≤ i → get_or buf' i 0 ≡ get_or buf i 0
  pub same_behind : (i : ℕ) → at + length out ≤ i → get_or buf' i 0 ≡ get_or buf i 0

set_other : (buf : List ℕ) (at c i : ℕ) → at ≢ i → get_or (set buf at c) i 0 ≡ get_or buf i 0
set_other buf at c i ne = get_or-set_ne buf at i c 0 ne

cons_fits :
    (c : ℕ) (out buf : List ℕ) (at max : ℕ) (buf' : List ℕ)
    → at < max
    → max ≤ length buf
    → Emitted (set buf at c) (at + 1) max out buf'
    → Emitted buf at max (c ∷ out) buf'
cons_fits c out buf at max buf' lt le e = record {
  size_eq = e.size_eq ∙ length-set buf at c;
  written = written;
  same_below =
      λ i h. e.same_below i (omega arith) ∙ set_other buf at c i (λ q. absurd (omega arith));
  same_above = λ i h. e.same_above i h ∙ set_other buf at c i (λ q. absurd (omega arith));
  same_behind =
      λ i h. e.same_behind i (omega arith) ∙ set_other buf at c i (λ q. absurd (omega arith));
}
  where
    written :
        (i : ℕ)
        → i < suc (length out)
        → at + i < max
        → get_or buf' (at + i) 0 ≡ get_or (c ∷ out) i 0
    written zero h k =
        let z : at + 0 ≡ at = omega arith in
        rw z (e.same_below at (omega arith) ∙ get_or-set_self buf at c 0 (omega arith))
    written (suc i) h k =
        let z : at + suc i ≡ at + 1 + i = omega arith in
        rw z (e.written i (omega arith) (omega arith))

cons_full :
    (c : ℕ) (out buf : List ℕ) (at max : ℕ) (buf' : List ℕ)
    → max ≤ at
    → Emitted buf (at + 1) max out buf'
    → Emitted buf at max (c ∷ out) buf'
cons_full c out buf at max buf' le e = record {
  size_eq = e.size_eq;
  written = λ i h k. absurd (omega arith);
  same_below = λ i h. e.same_below i (omega arith);
  same_above = e.same_above;
  same_behind = λ i h. e.same_behind i (omega arith);
}

sink_fits :
    (buf : List ℕ) (at max c : ℕ)
    → at + 1 < 2 ^ 32
    → at < max
    → max ≤ length buf
    → snprintf_outc (record { buf = some buf; pos = at; max = max }) c
      ≡ some (record { buf = some (set buf at c); pos = at + 1; max = max })
unfolding snprintf_outc
sink_fits buf at max c small lt le =
    let w : (at + 1) % 2 ^ 32 ≡ at + 1 = omega arith in
    let a : ltb at max ≡ true = ground arith in
    let b : ltb at (length buf) ≡ true = ground arith in rw (a, b, w) refl

sink_full :
    (buf : List ℕ) (at max c : ℕ)
    → at + 1 < 2 ^ 32
    → max ≤ at
    → snprintf_outc (record { buf = some buf; pos = at; max = max }) c
      ≡ some (record { buf = some buf; pos = at + 1; max = max })
unfolding snprintf_outc
sink_full buf at max c small le =
    let w : (at + 1) % 2 ^ 32 ≡ at + 1 = omega arith in
    let a : ltb at max ≡ false = ground arith in rw (a, w) refl

AllEmitted : List ℕ → List ℕ → ℕ → ℕ → Type 0
AllEmitted out buf at max =
    (buf' : List ℕ) × ((emit_all (record { buf = some buf; pos = at; max = max }) out
        ≡ some (record { buf = some buf'; pos = at + length out; max = max }))
      × Emitted buf at max out buf')

emit_all-Emitted :
    (out buf : List ℕ) (at max : ℕ)
    → at + length out < 2 ^ 31
    → max ≤ length buf
    → AllEmitted out buf at max
unfolding emit_all AllEmitted
emit_all-Emitted [] buf at max small le =
    let z : at + 0 ≡ at = omega arith in
    (
      buf,
      (
        rw z refl,
        (record {
          size_eq = refl;
          written = λ i h k. absurd (omega arith);
          same_below = λ i h. refl;
          same_above = λ i h. refl;
          same_behind = λ i h. refl;
        }),
      ),
    )
emit_all-Emitted (c ∷ out) buf at max small le =
    let z : at + suc (length out) ≡ at + 1 + length out = omega arith in
    elim (Bool-cases (ltb at max)) [
      | inl t ↦
          let lt : at < max = ground arith in
          let r =
            emit_all-Emitted out (set buf at c) (at + 1) max (omega arith)
              (omega (arith, length-set buf at c)) in
          (
            r.0,
            (
              rw (sink_fits buf at max c (omega arith) lt le, z) r.1.0,
              cons_fits c out buf at max r.0 lt le r.1.1,
            ),
          )
      | inr t ↦
          let ge : max ≤ at = ground arith in
          let r = emit_all-Emitted out buf (at + 1) max (omega arith) le in
          (
            r.0,
            (
              rw (sink_full buf at max c (omega arith) ge, z) r.1.0,
              cons_full c out buf at max r.0 ge r.1.1,
            ),
          )
    ]

emit_all-null :
    (out : List ℕ) (at max : ℕ)
    → at + length out < 2 ^ 31
    → emit_all (record { buf = none; pos = at; max = max }) out
      ≡ some (record { buf = none; pos = at + length out; max = max })
unfolding emit_all snprintf_outc
emit_all-null [] at max small = let z : at + 0 ≡ at = omega arith in rw z refl
emit_all-null (c ∷ out) at max small =
    let w : (at + 1) % 2 ^ 32 ≡ at + 1 = omega arith in
    let z : at + suc (length out) ≡ at + 1 + length out = omega arith in
    elim (Bool-cases (ltb at max)) [
      | inl t ↦ rw (t, w, z) (emit_all-null out (at + 1) max (omega arith))
      | inr t ↦ rw (t, w, z) (emit_all-null out (at + 1) max (omega arith))
    ]

-- Where the terminator goes.
abbrev pub end_of : ℕ → List ℕ → ℕ
end_of size out = if ltb (length out) (size - 1) then length out else size - 1

-- A buffer `buf'` with the text `out`, cut to `size` with its terminator, and as `buf` behind that.
pub record Cut (buf : List ℕ) (size : ℕ) (out buf' : List ℕ) : Type 0 where
  pub size_eq : length buf' ≡ length buf
  pub text : (i : ℕ) → i < end_of size out → get_or buf' i 0 ≡ get_or out i 0
  pub ended : get_or buf' (end_of size out) 0 ≡ 0
  pub behind : (i : ℕ) → end_of size out < i → get_or buf' i 0 ≡ get_or buf i 0

abbrev pub Written : List ℕ → ℕ → List ℕ → Filled → Type 0
Written buf size out r =
    (buf' : List ℕ) × ((r ≡ filled (some buf') (pos (length out))) × Cut buf size out buf')

-- A count below 2^31 is the int that is returned.
returned : (n : ℕ) → n < 2 ^ 31 → to_signed 32 n ≡ pos n
returned n small =
    let same : n % 2 ^ 32 ≡ n = omega arith in
    let low : ltb n (2 ^ 31) ≡ true = ground arith in rw (same, low) refl

terminate-Written :
    (buf : List ℕ) (size : ℕ) (out : List ℕ)
    → length out < 2 ^ 31
    → 0 < size
    → size ≤ length buf
    → Written buf size out (terminate (some buf) size (emit_all (start (some buf) size) out))
unfolding terminate AllEmitted
terminate-Written buf size out small some_size le =
    let a : ltb 0 size ≡ true = ground arith in
    let r = emit_all-Emitted out buf 0 (size - 1) (omega arith) (omega arith) in
    let k = end_of size out in
    let z : 0 + length out ≡ length out = omega arith in
    let kl : k < length r.0 = ground (arith, r.1.1.size_eq) in
    let inside : ltb k (length r.0) ≡ true = ground arith in
    let k_le : k ≤ length out = ground arith in
    let k_max : k ≤ size - 1 = ground arith in
    let e = rw z at r.1.0 in
    (
      set r.0 k 0,
      (
        rw (a, e, inside) (let n = returned (length out) small in rw n refl),
        (record {
          size_eq = length-set r.0 k 0 ∙ r.1.1.size_eq;
          text = λ i h.
              set_other r.0 k 0 i (λ q. absurd (omega arith))
              ∙ (let zi : 0 + i ≡ i = omega arith in
                  let w = r.1.1.written i (omega arith) (omega arith) in rw zi at w);
          ended = get_or-set_self r.0 k 0 0 kl;
          behind = λ i h.
              set_other r.0 k 0 i (λ q. absurd (omega arith))
              ∙ elim (Bool-cases (ltb (length out) (size - 1))) [
                | inl t ↦ r.1.1.same_behind i (ground arith)
                | inr t ↦ r.1.1.same_above i (ground arith)
              ];
        }),
      ),
    )

-- Where the format prints `out`, of fewer than 2^31 characters, vsnprintf returns the length of `out`. A buffer of `size` bytes then
-- holds `out`, cut to size - 1 bytes and terminated, and is as it was behind the terminator; without a
-- buffer, or with a size of 0, nothing is written.
pub vsnprintf-Written :
    (M : Doubles) (buf : List ℕ) (size : ℕ) (fmt : List ℕ) (args : List (Arg M.Carrier))
    (out : List ℕ)
    → size ≤ length buf
    → length out < 2 ^ 31
    → vstrfmt M fmt args ≡ printed out
    → (0 < size → Written buf size out (vsnprintf M (some buf) size fmt args))
      × ((vsnprintf M (some buf) 0 fmt args ≡ filled (some buf) (pos (length out)))
          × (vsnprintf M none size fmt args ≡ filled none (pos (length out))))
unfolding vsnprintf fill terminate
vsnprintf-Written M buf size fmt args out le small e =
    let n = returned (length out) small in
    let z : 0 + length out ≡ length out = omega arith in
    (
      λ some_size. rw e (terminate-Written buf size out small some_size le),
      (
        rw (e, emit_all-null out 0 0 (omega arith), z, n) refl,
        elim (Bool-cases (ltb 0 size)) [
          | inl t ↦ rw (e, t, emit_all-null out 0 (size - 1) (omega arith), z, n) refl
          | inr t ↦ rw (e, t, emit_all-null out 0 (size - 1) (omega arith), z, n) refl
        ],
      ),
    )
