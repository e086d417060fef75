-- ===== src/Vmm/Remove.antt =====
-- `VmmRemoveRegion` removes exactly the region of that start and size.
use zuzu.Base.{
  ℕ, suc, ◌<◌, ◌≡◌, refl, true, Option, none, some, List, [], ◌∷◌, ◌++◌, arith, ◌==◌, if◌then◌else◌,
  length, inl, inr, Bool-cases,
}
use zuzu.Klib.Bsearch.{Cmp, less, equal, greater, IsOrdered, Searched, hit, miss, bsearch-Searched}
use zuzu.Vmm.Defs.{
  Region, AddressSpace, unmap_range, mem_unref, region_at, region_cmp_start, remove_at,
  remove_region,
}
use zuzu.Vmm.Valid.{IsValid, region_at-remove_at, length-remove_at}

cmp-less : (va : ℕ) (r : Region) → region_cmp_start va r ≡ less → va < r.vaddr_start
unfolding region_cmp_start
cmp-less va r e = ground arith

cmp-greater : (va : ℕ) (r : Region) → region_cmp_start va r ≡ greater → r.vaddr_start < va
unfolding region_cmp_start
cmp-greater va r e = ground arith

cmp-equal : (va : ℕ) (r : Region) → region_cmp_start va r ≡ equal → r.vaddr_start ≡ va
unfolding region_cmp_start
cmp-equal va r e = ground arith

less-cmp : (va : ℕ) (r : Region) → va < r.vaddr_start → region_cmp_start va r ≡ less
unfolding region_cmp_start
less-cmp va r h = ground arith

greater-cmp : (va : ℕ) (r : Region) → r.vaddr_start < va → region_cmp_start va r ≡ greater
unfolding region_cmp_start
greater-cmp va r h = ground arith

equal-cmp : (va : ℕ) (r : Region) → r.vaddr_start ≡ va → region_cmp_start va r ≡ equal
unfolding region_cmp_start
equal-cmp va r h = ground arith

remove_at-IsValid :
    {rs : List Region} (k : ℕ) → IsValid rs → k < length rs → IsValid (remove_at k rs)
remove_at-IsValid {rs} k v h = record {
  placed = λ i l.
      ground (
        arith,
        region_at-remove_at rs k i h,
        v.placed i,
        v.placed (suc i),
        length-remove_at rs k h,
      );
  ordered = λ i j l m. ground (
    arith,
    region_at-remove_at rs k i h,
    region_at-remove_at rs k j h,
    length-remove_at rs k h,
    v.ordered i j,
    v.ordered i (suc j),
    v.ordered (suc i) (suc j),
  );
  few = omega (arith, length-remove_at rs k h, v.few);
}

-- The region that `VmmRemoveRegion` is to remove.
abbrev pub Matches : ℕ → ℕ → Region → Type 0
Matches vaddr size r = (r.vaddr_start ≡ vaddr) × (r.size ≡ size)

pub data Removed (space : AddressSpace) (vaddr size : ℕ) : Option AddressSpace → Type 0 where
  absent :
      ((i : ℕ) → i < length space.regions → ¬ Matches vaddr size (region_at space.regions i))
      → Removed space vaddr size none
  removed :
      {space' : AddressSpace} (i : ℕ)
      → i < length space.regions
      → Matches vaddr size (region_at space.regions i)
      → space'.regions ≡ remove_at i space.regions
      → space'.calls
        ≡ space.calls
          ++ (unmap_range vaddr size true ∷ mem_unref (region_at space.regions i).backing ∷ [])
      → IsValid space'.regions
      → Removed space vaddr size (some space')

module _ (space : AddressSpace) (vaddr size : ℕ) (v : IsValid space.regions) where
  at : ℕ → Cmp
  at i = region_cmp_start vaddr (region_at space.regions i)

  starts_up :
      (i j : ℕ)
      → i < j
      → j < length space.regions
      → (region_at space.regions i).vaddr_start < (region_at space.regions j).vaddr_start
  starts_up i j h k = ground (arith, v.ordered i j h k, v.placed i)

  at-IsOrdered : IsOrdered at (length space.regions)
  unfolding at
  at-IsOrdered = record {
    up = λ i j h k e.
        less-cmp vaddr (region_at space.regions j)
          (omega (arith, starts_up i j h k, cmp-less vaddr (region_at space.regions i) e));
    down = λ i j h k e.
        greater-cmp vaddr (region_at space.regions i)
          (omega (arith, starts_up i j h k, cmp-greater vaddr (region_at space.regions j) e));
  }

  removal : Option ℕ → Option AddressSpace
  unfolding remove_at
  removal o = elim o [
    | none ↦ none
    | some idx ↦
        if (region_at space.regions idx).size == size
        then some (record space {
          regions = remove_at idx space.regions;
          calls =
              space.calls
              ++ (unmap_range vaddr size true
                  ∷ mem_unref (region_at space.regions idx).backing
                  ∷ []);
        })
        else none
  ]

  from_search :
      (o : Option ℕ) → Searched at (length space.regions) o → Removed space vaddr size (removal o)
  unfolding at removal
  from_search none (miss all) =
      absent λ i h m. all i h (equal-cmp vaddr (region_at space.regions i) m.0)
  from_search (some k) (hit h e) =
      let start = cmp-equal vaddr (region_at space.regions k) e in
      elim (Bool-cases ((region_at space.regions k).size == size)) [
        | inl same ↦ rw same (removed k h (start, ground arith) refl refl (remove_at-IsValid k v h))
        | inr differs ↦ rw differs (absent λ i l m. ground (arith, starts_up i k, starts_up k i))
      ]

  -- In a valid address space `VmmRemoveRegion` removes the region of exactly this start and size, unmaps its pages, drops
  -- the reference on its backing object and keeps the list valid; it fails only if no region has
  -- this start and size.
  pub remove_region-Removed : Removed space vaddr size (remove_region space vaddr size)
  unfolding remove_region at removal
  remove_region-Removed = elim (Bool-cases (size == 0)) [
    | inl empty ↦ rw empty (absent λ i h m. ground (arith, v.placed i h))
    | inr some_size ↦
        rw some_size (from_search _ (bsearch-Searched at (length space.regions) at-IsOrdered v.few))
  ]
