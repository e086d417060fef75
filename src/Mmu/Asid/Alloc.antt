-- ===== src/Mmu/Asid/Alloc.antt =====
-- AsidAlloc gives no ASID twice in a generation, and starts a new one only where all are given.
use zuzu.Base.{
  ℕ, suc, ◌+◌, ◌-◌, ◌/◌, ◌%◌, ◌^◌, ◌≤◌, ◌<◌, ◌≡◌, refl, sym, ◌∙◌, ◌≢◌, ◌⊎◌, inl, inr, true, false,
  not, ◌&&◌, ◌||◌, List, arith, ltb, ◌==◌, if◌then◌else◌, Bool-cases,
}
use zuzu.Base.{replicate, get_or-replicate, length-replicate}
use zuzu.Base.Bits.{test_bit-zero}
use zuzu.Bitmap.{test, put, test-put, test-clr, length-put}
use mathlib.Core.Path.{subst}
use zuzu.Mmu.Asid.{
  Asids, Token, claimed, claim_from, claim_in_range, roll_over, or_else, token_of, asid_alloc,
  asid_free, bitmap_bytes, asid_count,
}
use zuzu.Mmu.Asid.Claim.{
  IsAsids, given, Claimed, none_free, first_free, claim_from-Claimed, claimed-given,
}

-- ASID 0 is kept back: its bit is set, or the cursor has not come back to it.
abbrev pub ZeroKept : Asids → Type 0
ZeroKept s = (given s 0 ≡ true) ⊎ (1 ≤ s.next_asid)

-- What AsidAlloc promises.
pub data Allocated (s : Asids) : Token × Asids → Type 0 where
  reused :
      (i : ℕ)
      → (1 ≤ i) × (i < asid_count)
      → given s i ≡ false
      → Allocated s (record { asid = i; generation = s.asid_generation }, claimed s i)
  rolled :
      (i : ℕ) (s' : Asids)
      → ((j : ℕ) → 1 ≤ j → j < asid_count → given s j ≡ true)
      → (1 ≤ i) × (i < asid_count)
      → i ≢ s.active_asid
      → ((j : ℕ) → given s' j ≡ (j == i || (j == 0 || j == s.active_asid)))
      → s'.asid_generation ≡ (s.asid_generation + 1) % 2 ^ 32
      → Allocated s (record { asid = i; generation = s'.asid_generation }, s')

module _ (s : Asids) (v : IsAsids s) where
  no_bits : (j : ℕ) → test 8 (replicate bitmap_bytes 0) j ≡ false
  unfolding test
  no_bits j = rw (get_or-replicate {A = ℕ} 32 (j / 8) 0) (test_bit-zero (j % 8))

  abbrev zeros : List ℕ
  zeros = replicate bitmap_bytes 0

  roll_over-given : (j : ℕ) → given (roll_over s) j ≡ (j == 0 || j == s.active_asid)
  unfolding roll_over
  roll_over-given j =
      let n = length-replicate {A = ℕ} 32 0 in
      let first = test-put 8 zeros 0 j (omega (arith, n)) in
      let l = length-put 8 zeros 0 in
      let a = v.active in
      let second = test-put 8 (put 8 zeros 0) s.active_asid j (omega (arith, n, l)) in
      let z = no_bits j in
      elim (Bool-cases (s.active_asid == 0)) [
        | inl none_active ↦ rw none_active (ground (arith, first, z))
        | inr some_active ↦ rw some_active (ground (arith, first, second, z))
      ]

  roll_over-IsAsids : IsAsids (roll_over s)
  unfolding roll_over
  roll_over-IsAsids = record {
    bytes = elim (Bool-cases (s.active_asid == 0)) [
      | inl none_active ↦ rw none_active (length-put 8 zeros 0)
      | inr some_active ↦
          rw some_active (length-put 8 (put 8 zeros 0) s.active_asid ∙ length-put 8 zeros 0)
    ];
    cursor = omega arith;
    active = v.active;
  }

  -- The claim after a rollover finds an ASID.
  after_roll_over :
      ((j : ℕ) → 1 ≤ j → j < asid_count → given s j ≡ true)
      → (r : ℕ × Asids) → Claimed (roll_over s) 1 255 r
      → Allocated s (token_of r)
  after_roll_over full _ (none_free all) =
      let one = all 1 (omega arith) (omega arith) in
      let two = all 2 (omega arith) (omega arith) in
      absurd (ground (arith, roll_over-given 1, roll_over-given 2))
  after_roll_over full _ (first_free i range free below) =
      let low = range.0 in
      let high = range.1 in
      rolled i (claimed (roll_over s) i) full (omega arith)
        (λ e. absurd (ground (arith, roll_over-given i)))
        (λ j. ground (
          arith,
          claimed-given (roll_over s) i j roll_over-IsAsids (omega arith),
          roll_over-given j,
        ))
        (unfold claimed roll_over in refl)

  abbrev last_try : Asids → ℕ × Asids
  last_try s2 = claim_in_range 1 asid_count (roll_over s2)

  -- The second search, of the ASIDs below the cursor.
  below_cursor :
      ((j : ℕ) → s.next_asid ≤ j → j < asid_count → given s j ≡ true)
      → (r : ℕ × Asids) → Claimed s 1 (s.next_asid - 1) r
      → Allocated s (token_of (or_else r last_try))
  unfolding or_else claim_in_range claimed
  below_cursor above _ (none_free all) =
      after_roll_over
        (λ j a b. elim (Bool-cases (ltb j s.next_asid)) [
          | inl lt ↦ all j a (ground arith)
          | inr ge ↦ above j (ground arith) b
        ])
        _ (claim_from-Claimed 255 1 (roll_over s))
  below_cursor above _ (first_free i range free below) =
      let low = range.0 in
      let high = range.1 in
      let c = v.cursor in
      let some : (i == 0) ≡ false = ground arith in rw some (reused i (omega arith) free)

  from_cursor :
      ZeroKept s
      → (r : ℕ × Asids) → Claimed s s.next_asid (asid_count - s.next_asid) r
      → Allocated s
          (token_of (or_else (or_else r (λ s1. claim_in_range 1 s1.next_asid s1)) last_try))
  unfolding or_else claim_in_range claimed
  from_cursor kept _ (none_free all) =
      let c = v.cursor in
      below_cursor (λ j a b. all j a (omega arith)) _ (claim_from-Claimed (s.next_asid - 1) 1 s)
  from_cursor kept _ (first_free i range free below) =
      let low = range.0 in
      let high = range.1 in
      let c = v.cursor in
      let some : (i == 0) ≡ false = elim (Bool-cases (i == 0)) [
        | inr other ↦ other
        | inl zero_found ↦
            let e : i ≡ 0 = ground arith in
            let f : given s 0 ≡ false = subst (λ k. given s k ≡ false) e free in
            elim kept [ inl set ↦ absurd (cc) | inr later ↦ absurd (omega arith) ]
      ] in
      rw (some, some) (reused i (ground arith) free)

-- On a state of the right sizes that keeps ASID 0 back, AsidAlloc returns an ASID of the range 1 to
-- 255 that is not given in this generation; only where all of them are given it starts a new
-- generation, and then the ASID returned, 0 and the active ASID are the only ones given.
pub asid_alloc-Allocated : (s : Asids) → IsAsids s → ZeroKept s → Allocated s (asid_alloc s)
unfolding asid_alloc claim_in_range
asid_alloc-Allocated s v kept =
    from_cursor s v kept _ (claim_from-Claimed (asid_count - s.next_asid) s.next_asid s)

-- On a state of the right sizes AsidFree gives back an ASID of this generation and no other one, and
-- nothing at all for a token of another generation or of ASID 0.
pub asid_free-given :
    (s : Asids) (token : Token) (j : ℕ)
    → IsAsids s
    → token.asid < asid_count
    → given (asid_free s token) j ≡ (
        if token.asid == j && (token.generation == s.asid_generation && not (token.asid == 0))
        then false
        else given s j)
unfolding asid_free
asid_free-given s token j v lt =
    let b = v.bytes in
    let c = test-clr 8 s.asid_bitmap token.asid j (omega arith) in
    elim (Bool-cases (token.asid == 0)) [
      | inl z ↦ rw z (ground arith)
      | inr nz ↦ elim (Bool-cases (token.generation == s.asid_generation)) [
        | inl same ↦ rw (nz, same) (ground (arith, c))
        | inr old ↦ rw (nz, old) (ground arith)
      ]
    ]

claim_from-first :
    (n lo : ℕ) (s : Asids) → given s lo ≡ false → claim_from (suc n) lo s ≡ (lo, claimed s lo)
unfolding claim_from
claim_from-first n lo s free = rw free

generation_same :
    (s : Asids) (lo n : ℕ) (r : ℕ × Asids)
    → Claimed s lo n r
    → r.1.asid_generation ≡ s.asid_generation
unfolding claimed
generation_same s lo n _ (none_free all) = refl
generation_same s lo n _ (first_free i range free below) = refl

module _ (s : Asids) (free : given s 0 ≡ false) where
  search_at_zero : (lo : ℕ) → lo ≡ 0 → claim_in_range lo asid_count s ≡ (0, claimed s 0)
  unfolding claim_in_range
  search_at_zero lo e =
      subst (λ k. claim_from (asid_count - k) k s ≡ (0, claimed s 0)) (sym e)
        (claim_from-first 255 0 s free)

  abbrev low_try : Asids → ℕ × Asids
  low_try s1 = claim_in_range 1 s1.next_asid s1

  low_try-zero : or_else (0, claimed s 0) low_try ≡ (0, claimed s 0)
  unfolding or_else claim_in_range claimed claim_from
  low_try-zero = refl

  new_generation :
      (or_else
        (0, claimed s 0)
        (λ s2. claim_in_range 1 asid_count (roll_over s2))).1.asid_generation
      ≡ (s.asid_generation + 1) % 2 ^ 32
  unfolding or_else claim_in_range
  new_generation =
      generation_same (roll_over (claimed s 0)) 1 255 _
        (claim_from-Claimed 255 1 (roll_over (claimed s 0)))
      ∙ unfold roll_over claimed in refl

-- Where the cursor has come back to 0 and the bit of ASID 0 is clear, AsidAlloc starts a new
-- generation whatever other ASIDs are free: the search finds ASID 0, and 0 counts as nothing found.
pub asid_alloc-wrapped :
    (s : Asids)
    → s.next_asid ≡ 0
    → given s 0 ≡ false
    → (asid_alloc s).0.generation ≡ (s.asid_generation + 1) % 2 ^ 32
unfolding asid_alloc
asid_alloc-wrapped s wrapped free =
    let last = λ (s2 : Asids). claim_in_range 1 asid_count (roll_over s2) in
    let goal_of = λ (low : ℕ × Asids).
      ((token_of (or_else low last)).0.generation ≡ (s.asid_generation + 1) % 2 ^ 32) in
    subst (λ high. goal_of (or_else high (low_try s free)))
      (sym (search_at_zero s free s.next_asid wrapped))
      (subst goal_of (sym (low_try-zero s free)) (new_generation s free))
