-- ===== src/Vmm/Tests.antt =====
-- The region list of a small address space, and the theorems of `Vmm` at it.
use zuzu.Base.{ℕ, ◌<◌, ◌≡◌, refl, true, none, some, [], ◌∷◌, arith, zero, suc}
use zuzu.Klib.Bsearch.{bsearch}
use zuzu.Vmm.Defs.{
  Region, AddressSpace, normal, anon, region_at, add_region, find_region, find_free_va,
  remove_region, region_limit_prot,
}
use zuzu.Vmm.Valid.{IsValid}
use zuzu.Vmm.Insert.{Added, add_region-Added}
use zuzu.Vmm.Find.{FoundAt, find_region-FoundAt}
use zuzu.Vmm.Remove.{Removed, remove_region-Removed}
use zuzu.Vmm.FreeVa.{Hole, find_free_va-Hole}

abbrev region : ℕ → ℕ → Region
region start size = record {
  vaddr_start = start;
  size = size;
  prot = 3;
  max_prot = 3;
  memtype = normal;
  owner = anon;
  flags = 0;
  backing = 0;
  backing_page_offset = 0;
}

abbrev two_regions : AddressSpace
two_regions = record {
  regions = region 0x1000 0x1000 ∷ region 0x4000 0x2000 ∷ [];
  cap = 2;
  calls = [];
}

two_regions-IsValid : IsValid two_regions.regions
two_regions-IsValid = record { placed = placed; ordered = ordered; few = omega arith }
  where
    placed : (i : ℕ) → i < 2 → zuzu.Vmm.Valid.IsPlaced (region_at two_regions.regions i)
    placed zero h = omega arith
    placed (suc zero) h = omega arith
    placed (suc (suc i)) h = absurd (omega arith)

    ordered :
        (i j : ℕ)
        → i < j
        → j < 2
        → zuzu.Vmm.Valid.Before (region_at two_regions.regions i) (region_at two_regions.regions j)
    ordered zero zero h k = absurd (omega arith)
    ordered zero (suc zero) h k = omega arith
    ordered zero (suc (suc j)) h k = absurd (omega arith)
    ordered (suc i) zero h k = absurd (omega arith)
    ordered (suc i) (suc zero) h k = absurd (omega arith)
    ordered (suc i) (suc (suc j)) h k = absurd (omega arith)

-- The hole between the two, where the vector has to grow for it.
hole_found : find_free_va two_regions 0x1000 0x10000 0x1800 ≡ 0x2000
unfolding find_free_va
hole_found = refl

found_second : find_region two_regions 0x5fff ≡ some 1
unfolding find_region bsearch zuzu.Vmm.Defs.region_contains_va
found_second = refl

between_regions : find_region two_regions 0x3000 ≡ none
unfolding find_region bsearch zuzu.Vmm.Defs.region_contains_va
between_regions = refl

add_overlapping : add_region true two_regions (region 0x3000 0x2000) ≡ none
unfolding add_region
add_overlapping = refl

add_region-Added_example :
    Added true two_regions
      (region 0x2000 0x2000)
      (add_region true two_regions (region 0x2000 0x2000))
add_region-Added_example =
    add_region-Added two_regions (region 0x2000 0x2000) two_regions-IsValid (omega arith)
      (omega arith) true

find_region-FoundAt_example : FoundAt two_regions.regions 0x5fff (find_region two_regions 0x5fff)
find_region-FoundAt_example = find_region-FoundAt two_regions two_regions-IsValid 0x5fff

find_free_va-Hole_example :
    Hole two_regions.regions 0x1000 0x10000 0x1800 (find_free_va two_regions 0x1000 0x10000 0x1800)
find_free_va-Hole_example =
    find_free_va-Hole two_regions 0x1000 0x10000 0x1800 two_regions-IsValid (omega arith)

remove_region-Removed_example :
    Removed two_regions 0x4000 0x2000 (remove_region two_regions 0x4000 0x2000)
remove_region-Removed_example = remove_region-Removed two_regions 0x4000 0x2000 two_regions-IsValid
