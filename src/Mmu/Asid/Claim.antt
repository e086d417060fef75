-- ===== src/Mmu/Asid/Claim.antt =====
-- The search of AsidClaimInRange.
use zuzu.Base.{
  ℕ, zero, suc, ◌+◌, ◌≤◌, ◌<◌, ◌≡◌, ◌∙◌, inl, inr, Bool, true, false, arith, ◌==◌, if◌then◌else◌,
  Bool-cases,
}
use zuzu.Base.{length}
use zuzu.Bitmap.{test, test-put, length-put}
use zuzu.Mmu.Asid.{Asids, claimed, claim_from, bitmap_bytes, asid_count}

pub record IsAsids (s : Asids) : Type 0 where
  pub bytes : length s.asid_bitmap ≡ bitmap_bytes
  pub cursor : s.next_asid < asid_count
  pub active : s.active_asid < asid_count

-- Is the ASID given out in this generation?
abbrev pub given : Asids → ℕ → Bool
given s i = test 8 s.asid_bitmap i

-- What the search of the `n` ASIDs from `lo` on returns.
pub data Claimed (s : Asids) (lo n : ℕ) : ℕ × Asids → Type 0 where
  none_free : ((j : ℕ) → lo ≤ j → j < lo + n → given s j ≡ true) → Claimed s lo n (0, s)
  first_free :
      (i : ℕ)
      → (lo ≤ i) × (i < lo + n)
      → given s i ≡ false
      → ((j : ℕ) → lo ≤ j → j < i → given s j ≡ true)
      → Claimed s lo n (i, claimed s i)

further :
    (s : Asids) (lo n : ℕ) (r : ℕ × Asids)
    → given s lo ≡ true
    → Claimed s (lo + 1) n r
    → Claimed s lo (suc n) r
further s lo n _ here (none_free all) = none_free (λ j a b. elim (Bool-cases (lo == j)) [
  | inl same ↦ let e : j ≡ lo = ground arith in rw e here
  | inr other ↦ all j (ground arith) (omega arith)
])
further s lo n _ here (first_free i range free below) =
    let low = range.0 in
    let high = range.1 in
    first_free i (omega arith) free (λ j a b. elim (Bool-cases (lo == j)) [
      | inl same ↦ let e : j ≡ lo = ground arith in rw e here
      | inr other ↦ below j (ground arith) b
    ])

pub claim_from-Claimed : (n lo : ℕ) (s : Asids) → Claimed s lo n (claim_from n lo s)
unfolding claim_from
claim_from-Claimed zero lo s = none_free (λ j a b. absurd (omega arith))
claim_from-Claimed (suc n) lo s = elim (Bool-cases (given s lo)) [
  | inl used ↦ rw used (further s lo n _ used (claim_from-Claimed n (lo + 1) s))
  | inr free ↦ rw free (first_free lo (omega arith) free (λ j a b. absurd (omega arith)))
]

-- The state after a claim.
pub claimed-given :
    (s : Asids) (i j : ℕ)
    → IsAsids s
    → i < asid_count
    → given (claimed s i) j ≡ (if i == j then true else given s j)
unfolding claimed
claimed-given s i j v lt = let b = v.bytes in test-put 8 s.asid_bitmap i j (omega (arith, b))

pub claimed-IsAsids : (s : Asids) (i : ℕ) → IsAsids s → IsAsids (claimed s i)
unfolding claimed
claimed-IsAsids s i v = record {
  bytes = length-put 8 s.asid_bitmap i ∙ v.bytes;
  cursor = omega arith;
  active = v.active;
}
