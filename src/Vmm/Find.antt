-- ===== src/Vmm/Find.antt =====
-- `VmmFindRegion` and the lookups that rest on it: the region found is the one that holds the
-- address.
use Prim.Native.Nat.{bit_and}
use zuzu.Base.{
  ℕ, ◌+◌, ◌≤◌, ◌<◌, ◌≡◌, ◌≢◌, Option, none, some, List, arith, ◌==◌, if◌then◌else◌, length, set,
  Bool-cases, inl, inr, get_or-set_self, get_or-set_ne, length-set,
}
use zuzu.Klib.Bsearch.{Cmp, less, equal, greater, IsOrdered, Searched, hit, miss, bsearch-Searched}
use zuzu.Vmm.Defs.{
  Region, AddressSpace, region_at, no_region, region_contains_va, find_region, region_limit_prot,
}
use zuzu.Vmm.Valid.{IsValid}

-- The region holds the address.
abbrev pub Holds : ℕ → Region → Type 0
Holds va r = (r.vaddr_start ≤ va) × (va < r.vaddr_start + r.size)

contains-less : (va : ℕ) (r : Region) → region_contains_va va r ≡ less → va < r.vaddr_start
unfolding region_contains_va
contains-less va r e = ground arith

contains-equal : (va : ℕ) (r : Region) → region_contains_va va r ≡ equal → Holds va r
unfolding region_contains_va
contains-equal va r e = ground arith

contains-greater :
    (va : ℕ) (r : Region) → region_contains_va va r ≡ greater → r.vaddr_start + r.size ≤ va
unfolding region_contains_va
contains-greater va r e = ground arith

less-contains : (va : ℕ) (r : Region) → va < r.vaddr_start → region_contains_va va r ≡ less
unfolding region_contains_va
less-contains va r h = ground arith

greater-contains :
    (va : ℕ) (r : Region) → r.vaddr_start + r.size ≤ va → region_contains_va va r ≡ greater
unfolding region_contains_va
greater-contains va r h = ground arith

equal-contains : (va : ℕ) (r : Region) → Holds va r → region_contains_va va r ≡ equal
unfolding region_contains_va
equal-contains va r h = ground arith

-- What a lookup by address returns.
pub data FoundAt (rs : List Region) (va : ℕ) : Option ℕ → Type 0 where
  found : {i : ℕ} → i < length rs → Holds va (region_at rs i) → FoundAt rs va (some i)
  unmapped : ((i : ℕ) → i < length rs → ¬ Holds va (region_at rs i)) → FoundAt rs va none

module _ (space : AddressSpace) (v : IsValid space.regions) (va : ℕ) where
  at : ℕ → Cmp
  at i = region_contains_va va (region_at space.regions i)

  at-IsOrdered : IsOrdered at (length space.regions)
  unfolding at
  at-IsOrdered = record {
    up = λ i j h k e.
        less-contains va (region_at space.regions j)
          (omega (arith, v.ordered i j h k, contains-less va (region_at space.regions i) e));
    down = λ i j h k e.
        greater-contains va (region_at space.regions i)
          (omega (arith, v.ordered i j h k, contains-greater va (region_at space.regions j) e));
  }

  from_search : (o : Option ℕ) → Searched at (length space.regions) o → FoundAt space.regions va o
  unfolding at
  from_search (some i) (hit h e) = found h (contains-equal va (region_at space.regions i) e)
  from_search none (miss all) =
      unmapped λ i h w. all i h (equal-contains va (region_at space.regions i) w)

  -- In a valid address space `VmmFindRegion` returns the region that holds the address, and NULL
  -- only if no region does.
  pub find_region-FoundAt : FoundAt space.regions va (find_region space va)
  unfolding find_region at
  find_region-FoundAt = elim (Bool-cases (length space.regions == 0)) [
    | inl empty ↦ rw empty (unmapped λ i h. absurd (ground arith))
    | inr some_regions ↦
        rw some_regions
          (from_search _ (bsearch-Searched at (length space.regions) at-IsOrdered v.few))
  ]

  -- At most one region holds an address.
  pub Holds-once :
      (i j : ℕ)
      → i < length space.regions
      → j < length space.regions
      → Holds va (region_at space.regions i)
      → Holds va (region_at space.regions j)
      → i ≡ j
  Holds-once i j h k p q = ground (arith, v.ordered i j, v.ordered j i)

-- What `VmmRegionLimitProt` may change in a region: its ceiling alone.
with_limit : Region → ℕ → Region
with_limit r allowed = record r { max_prot = bit_and r.max_prot allowed }

module _ (space : AddressSpace) (v : IsValid space.regions) (va allowed : ℕ) where
  -- The region at index `i` after the write at index `k`.
  limited_at :
      (k i : ℕ)
      → k < length space.regions
      → let rs = set space.regions k (with_limit (region_at space.regions k) allowed) in
        region_at rs i ≡ (
          if k == i
          then with_limit (region_at space.regions k) allowed
          else region_at space.regions i)
  limited_at k i h = ground (
    arith,
    get_or-set_self space.regions k (with_limit (region_at space.regions k) allowed) no_region h,
    get_or-set_ne space.regions k i (with_limit (region_at space.regions k) allowed) no_region,
  )

  limited-IsValid :
      (k : ℕ)
      → k < length space.regions
      → IsValid (set space.regions k (with_limit (region_at space.regions k) allowed))
  unfolding with_limit
  limited-IsValid k h =
      let new = with_limit (region_at space.regions k) allowed in
      let same = length-set space.regions k new in
      record {
        placed = λ i l. ground (arith, limited_at k i h, v.placed i, same);
        ordered =
            λ i j l m. ground (arith, limited_at k i h, limited_at k j h, v.ordered i j, same);
        few = omega (arith, same, v.few);
      }

  -- What `VmmRegionLimitProt` returns.
  pub data Limited : Option AddressSpace → Type 0 where
    no_holder :
        ((i : ℕ) → i < length space.regions → ¬ Holds va (region_at space.regions i)) → Limited none
    limited :
        {space' : AddressSpace} (k : ℕ)
        → k < length space.regions
        → Holds va (region_at space.regions k)
        → ((i : ℕ) → i ≢ k → region_at space'.regions i ≡ region_at space.regions i)
        → region_at space'.regions k ≡ record (region_at space.regions k) {
          max_prot = bit_and (region_at space.regions k).max_prot allowed;
        }
        → IsValid space'.regions
        → Limited (some space')

  write :
      (o : Option ℕ)
      → FoundAt space.regions va o
      → Limited (elim o [
        | none ↦ none
        | some i ↦ some (record space {
          regions = set space.regions i (with_limit (region_at space.regions i) allowed);
        })
      ])
  unfolding with_limit
  write none (unmapped all) = no_holder all
  write (some k) (found h w) =
      limited k h w (λ i ne. ground (arith, limited_at k i h, ne))
        (ground (arith, limited_at k k h)) (limited-IsValid k h)

  -- In a valid address space `VmmRegionLimitProt` masks the ceiling of the region that holds the address and changes nothing
  -- else of the list, which stays valid; it fails only if no region holds the address.
  pub region_limit_prot-Limited : Limited (region_limit_prot space va allowed)
  unfolding region_limit_prot with_limit
  region_limit_prot-Limited = write (find_region space va) (find_region-FoundAt space v va)
