-- ===== src/Mmu/Asid/Tests.antt =====
-- The theorems of `Mmu.Asid` at boot and at the end of the first generation.
use zuzu.Base.{
  ℕ, zero, suc, ◌+◌, ◌-◌, ◌*◌, ◌/◌, ◌%◌, ◌^◌, ◌≤◌, ◌<◌, ◌≡◌, refl, sym, ◌∙◌, ap, ◌≢◌, ◌↔◌, ◌⊎◌, inl,
  inr, Bool, true, false, not, ◌&&◌, ◌||◌, Option, none, some, List, [], ◌∷◌, ◌++◌, map, arith, ltb,
  leb, ◌==◌, if◌then◌else◌, Bool-cases, Option-cases,
}
use zuzu.Base.{replicate}
use zuzu.Bitmap.{test}
use zuzu.Mmu.Asid.{Asids, asid_alloc}
use zuzu.Mmu.Asid.Claim.{IsAsids, given}
use zuzu.Mmu.Asid.Alloc.{Allocated, asid_alloc-Allocated, asid_alloc-wrapped}

-- ASIDs 1 to 3 are given, 2 has been used before, and the cursor is at 3.
abbrev three_given : Asids
three_given = record {
  asid_bitmap = 15 ∷ replicate 31 0;
  dirty_bitmap = 4 ∷ replicate 31 0;
  asid_generation = 2;
  next_asid = 3;
  active_asid = 1;
  flushes = [];
}

three_given-IsAsids : IsAsids three_given
three_given-IsAsids = record { bytes = refl; cursor = omega arith; active = omega arith }

asid_alloc-Allocated_example : Allocated three_given (asid_alloc three_given)
asid_alloc-Allocated_example =
    asid_alloc-Allocated three_given three_given-IsAsids (inr (omega arith))

-- The first generation after ASID 255 was given and ASID 5 was freed: all bits but those of 0 and 5.
abbrev wrapped : Asids
wrapped = record {
  asid_bitmap = 222 ∷ replicate 31 255;
  dirty_bitmap = replicate 32 0;
  asid_generation = 1;
  next_asid = 0;
  active_asid = 1;
  flushes = [];
}

zero_clear : given wrapped 0 ≡ false
unfolding test zuzu.Base.Bits.test_bit
zero_clear = refl

asid_alloc-wrapped_example : (asid_alloc wrapped).0.generation ≡ (1 + 1) % 2 ^ 32
asid_alloc-wrapped_example = asid_alloc-wrapped wrapped refl zero_clear
