-- ===== src/Vmm/Defs.antt =====
-- Regions, address spaces, and the functions of kernel/mm/vmm/vmm_region.c.
use Prim.Native.Nat.{bit_and}
use zuzu.Base.{
  ℕ, zero, suc, ◌+◌, ◌-◌, ◌*◌, ◌/◌, ◌%◌, ◌^◌, Bool, true, false, Option, none, some, List, [], ◌∷◌,
  ◌++◌, ltb, leb, ◌==◌, ◌&&◌, ◌||◌, if◌then◌else◌, length, get_or, take, drop, set,
}
use zuzu.Klib.Bsearch.{Cmp, less, equal, greater, bsearch}

pub data MemType : Type 0 where
  normal device normal_nc : MemType

-- `VM_BACKING_NONE`, `VM_BACKING_ANON` and `VM_BACKING_SHARED`.
pub data Backing : Type 0 where
  unbacked anon shared : Backing

-- `VirtMemRegion`. `backing` is the memory object's address, 0 for NULL.
pub record Region : Type 0 where
  pub vaddr_start : ℕ
  pub size : ℕ
  pub prot : ℕ
  pub max_prot : ℕ
  pub memtype : MemType
  pub owner : Backing
  pub flags : ℕ
  pub backing : ℕ
  pub backing_page_offset : ℕ

-- The calls into the page tables and the memory objects.
pub data Call : Type 0 where
  mem_ref mem_unref : ℕ → Call
  unmap_range : ℕ → ℕ → Bool → Call

pub record AddressSpace : Type 0 where
  pub regions : List Region
  pub cap : ℕ
  pub calls : List Call

abbrev pub page_size : ℕ
page_size = 4096

-- What a read past the vector's elements returns: the zeroed slot that `vec_grow` leaves there.
abbrev pub no_region : Region
no_region = record {
  vaddr_start = 0;
  size = 0;
  prot = 0;
  max_prot = 0;
  memtype = normal;
  owner = unbacked;
  flags = 0;
  backing = 0;
  backing_page_offset = 0;
}

abbrev pub region_at : List Region → ℕ → Region
region_at rs i = get_or rs i no_region

-- `a + b` and `align_up(a, PAGE_SIZE)` on 32-bit words.
abbrev pub add32 : ℕ → ℕ → ℕ
add32 a b = (a + b) % 2 ^ 32

abbrev pub align_up : ℕ → ℕ
align_up a = add32 a 4095 / 4096 * 4096

abbrev pub region_end : Region → ℕ
region_end r = add32 r.vaddr_start r.size

unfoldable pub region_contains_va : ℕ → Region → Cmp
region_contains_va va r =
    if ltb va r.vaddr_start
    then less
    else if leb r.size (va - r.vaddr_start)
    then greater
    else equal

unfoldable pub region_cmp_start : ℕ → Region → Cmp
region_cmp_start va r =
    if ltb va r.vaddr_start then less else if ltb r.vaddr_start va then greater else equal

-- `VmmFindRegion`: the index of the region, or `none` for NULL.
unfoldable pub find_region : AddressSpace → ℕ → Option ℕ
find_region space va =
    if length space.regions == 0
    then none
    else bsearch (λ i. region_contains_va va (region_at space.regions i)) (length space.regions)

-- The loop of `VmmAddRegion` that finds where a region belongs.
unfoldable pub upper_bound : List Region → ℕ → ℕ → ℕ → ℕ → ℕ
upper_bound rs new_start zero lo hi = lo
upper_bound rs new_start (suc fuel) lo hi =
    let mid = lo + (hi - lo) / 2 in
    let right = upper_bound rs new_start fuel (mid + 1) hi in
    let left = upper_bound rs new_start fuel lo mid in
    if ltb lo hi then (if leb (region_at rs mid).vaddr_start new_start then right else left) else lo

-- The two `memmove`s: make room at an index and write there; close the gap at an index.
unfoldable pub insert_at : ℕ → Region → List Region → List Region
insert_at k r rs = take k rs ++ (r ∷ drop k rs)

unfoldable pub remove_at : ℕ → List Region → List Region
remove_at k rs = take k rs ++ drop (suc k) rs

-- `max_prot` defaults to the rwx bits of `prot`.
unfoldable pub with_max_prot : Region → Region
with_max_prot r = if r.max_prot == 0 then record r { max_prot = bit_and r.prot 7 } else r

-- `vm_region_vec_grow`; `memory` says whether its allocation succeeds.
unfoldable pub vec_grow : Bool → AddressSpace → Option AddressSpace
vec_grow memory space =
    if memory then some (record space { cap = space.cap * 2 % 2 ^ 32 }) else none

-- The write of the new region, once there is room.
unfoldable pub store_region : ℕ → Region → AddressSpace → AddressSpace
unfolding insert_at with_max_prot
store_region ins r space = record space {
  regions = insert_at ins (with_max_prot r) space.regions;
  calls = space.calls ++ (mem_ref r.backing ∷ []);
}

-- Does the new region collide with its neighbour to the left, or to the right?
unfoldable pub hits_left : List Region → ℕ → Region → Bool
hits_left rs zero r = false
hits_left rs (suc k) r = ltb r.vaddr_start (region_end (region_at rs k))

unfoldable pub hits_right : List Region → ℕ → Region → Bool
hits_right rs ins r =
    if ltb ins (length rs) then ltb (region_at rs ins).vaddr_start (region_end r) else false

-- `VmmAddRegion`; `none` is the result false, which leaves the address space as it was.
unfoldable pub add_region : Bool → AddressSpace → Region → Option AddressSpace
unfolding upper_bound hits_left hits_right store_region vec_grow
add_region memory space r =
    let rs = space.regions in
    let ins = upper_bound rs r.vaddr_start (suc (length rs)) 0 (length rs) in
    if r.size == 0 || (hits_left rs ins r || hits_right rs ins r)
    then none
    else if leb space.cap (length rs)
    then (elim (vec_grow memory space) [
      | none ↦ none
      | some space' ↦ some (store_region ins r space')
    ])
    else some (store_region ins r space)

-- The loop of `VmmFindFreeVa`; 0 where there is no room.
unfoldable pub free_va_loop : List Region → ℕ → ℕ → ℕ → ℕ
free_va_loop [] cand hi size = if leb size (hi - cand) then cand else 0
free_va_loop (r ∷ rs) cand hi size =
    let r_start = r.vaddr_start in
    let r_end = align_up (region_end r) in
    let skip = free_va_loop rs cand hi size in
    let next = free_va_loop rs r_end hi size in
    if leb r_end cand
    then skip
    else if leb hi r_start
    then (if leb size (hi - cand) then cand else 0)
    else if ltb cand r_start && leb size (r_start - cand)
    then cand
    else if leb hi r_end
    then 0
    else next

unfoldable pub find_free_va : AddressSpace → ℕ → ℕ → ℕ → ℕ
unfolding free_va_loop
find_free_va space lo hi size =
    if size == 0 || (leb hi lo || ltb (hi - lo) size)
    then 0
    else free_va_loop space.regions lo hi size

-- `VmmRemoveRegion`; `none` is the result false.
unfoldable pub remove_region : AddressSpace → ℕ → ℕ → Option AddressSpace
unfolding remove_at
remove_region space vaddr size =
    let rs = space.regions in
    let found = bsearch (λ i. region_cmp_start vaddr (region_at rs i)) (length rs) in
    if size == 0 then none else elim found [
      | none ↦ none
      | some idx ↦
          if (region_at rs idx).size == size
          then some (record space {
            regions = remove_at idx rs;
            calls =
                space.calls
                ++ (unmap_range vaddr size true ∷ mem_unref (region_at rs idx).backing ∷ []);
          })
          else none
    ]

-- `VmmRegionProt`; `none` is the result false.
unfoldable pub region_prot : AddressSpace → ℕ → Option ℕ
region_prot space va = elim (find_region space va) [
  | none ↦ none
  | some i ↦ some (region_at space.regions i).prot
]

-- `VmmRegionLimitProt`; `none` is the result false.
unfoldable pub region_limit_prot : AddressSpace → ℕ → ℕ → Option AddressSpace
region_limit_prot space va allowed = elim (find_region space va) [
  | none ↦ none
  | some i ↦
      let r = region_at space.regions i in
      some (record space {
        regions = set space.regions i (record r { max_prot = bit_and r.max_prot allowed });
      })
]
