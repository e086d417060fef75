-- ===== src/Mmu/Asid.antt =====
-- Address space IDs, arch/arm/mmu/asid.c. The two bitmaps are arrays of bytes; the flushes of the TLB
-- are recorded in order.
use zuzu.Base.{
  ℕ, zero, suc, ◌+◌, ◌-◌, ◌*◌, ◌/◌, ◌%◌, ◌^◌, ◌≤◌, ◌<◌, ◌≡◌, refl, sym, ◌∙◌, ap, ◌≢◌, ◌↔◌, ◌⊎◌, inl,
  inr, Bool, true, false, not, ◌&&◌, ◌||◌, Option, none, some, List, [], ◌∷◌, ◌++◌, map, arith, ltb,
  leb, ◌==◌, if◌then◌else◌, Bool-cases, Option-cases,
}
use zuzu.Base.{replicate}
use zuzu.Bitmap.{test, put, clr}
pub mod Claim
pub mod Alloc
pub mod Tests

abbrev pub asid_count : ℕ
asid_count = 256

abbrev pub bitmap_bytes : ℕ
bitmap_bytes = 32

pub data Flush : Type 0 where
  flush_tlb_asid : ℕ → Flush
  flush_tlb : Flush

-- The static state.
pub record Asids : Type 0 where
  pub asid_bitmap : List ℕ
  pub dirty_bitmap : List ℕ
  pub asid_generation : ℕ
  pub next_asid : ℕ
  pub active_asid : ℕ
  pub flushes : List Flush

pub record Token : Type 0 where
  pub asid : ℕ
  pub generation : ℕ

unfoldable pub boot_asids : Asids
boot_asids = record {
  asid_bitmap = replicate bitmap_bytes 0;
  dirty_bitmap = replicate bitmap_bytes 0;
  asid_generation = 1;
  next_asid = 1;
  active_asid = 0;
  flushes = [];
}

unfoldable pub set_active : Asids → ℕ → Asids
set_active s a = record s { active_asid = a; dirty_bitmap = put 8 s.dirty_bitmap a }

-- What AsidClaimInRange does with the ASID that it found; an `Asid` is a byte.
unfoldable pub claimed : Asids → ℕ → Asids
claimed s i = record s {
  asid_bitmap = put 8 s.asid_bitmap i;
  next_asid = (i + 1) % 2 ^ 8;
  flushes = if test 8 s.dirty_bitmap i then s.flushes ++ (flush_tlb_asid i ∷ []) else s.flushes;
}

-- The loop over the `n` ASIDs from `i` on.
unfoldable pub claim_from : ℕ → ℕ → Asids → ℕ × Asids
claim_from zero i s = (0, s)
claim_from (suc n) i s =
    let rest = claim_from n (i + 1) s in if test 8 s.asid_bitmap i then rest else (i, claimed s i)

unfoldable pub claim_in_range : ℕ → ℕ → Asids → ℕ × Asids
claim_in_range lo hi s = claim_from (hi - lo) lo s

-- The start of a new generation, up to its first claim.
unfoldable pub roll_over : Asids → Asids
roll_over s =
    let empty = replicate bitmap_bytes 0 in
    let reserved = put 8 empty 0 in
    record s {
      asid_bitmap = if s.active_asid == 0 then reserved else put 8 reserved s.active_asid;
      dirty_bitmap = empty;
      asid_generation = (s.asid_generation + 1) % 2 ^ 32;
      next_asid = 1;
      flushes = s.flushes ++ (flush_tlb ∷ []);
    }

abbrev pub token_of : ℕ × Asids → Token × Asids
token_of (i, s) = (record { asid = i; generation = s.asid_generation }, s)

-- Each search goes on where the one before found nothing, which is 0.
unfoldable pub or_else : ℕ × Asids → (Asids → ℕ × Asids) → ℕ × Asids
or_else (i, s) further = if i == 0 then further s else (i, s)

unfoldable pub asid_alloc : Asids → Token × Asids
asid_alloc s =
    let high = claim_in_range s.next_asid asid_count s in
    let low = or_else high (λ s1. claim_in_range 1 s1.next_asid s1) in
    token_of (or_else low (λ s2. claim_in_range 1 asid_count (roll_over s2)))

unfoldable pub asid_free : Asids → Token → Asids
asid_free s token =
    if token.asid == 0
    then s
    else if not (token.generation == s.asid_generation)
    then s
    else record s { asid_bitmap = clr 8 s.asid_bitmap token.asid }
