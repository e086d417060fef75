-- ===== src/Vmm/Insert.antt =====
-- `VmmAddRegion`: it accepts a region exactly when the region overlaps none, and keeps the list
-- sorted and free of overlaps.
use zuzu.Base.{
  ℕ, zero, suc, ◌+◌, ◌-◌, ◌/◌, ◌^◌, ◌≤◌, ◌<◌, ◌≡◌, refl, ◌⊎◌, inl, inr, Bool, true, false, Option,
  none, some, List, [], ◌∷◌, ◌++◌, arith, ltb, leb, ◌==◌, if◌then◌else◌, length, Bool-cases,
}
use native.Mathlib.Decide.{ℕ_discrete, dec_lt}
use zuzu.Vmm.Defs.{
  Region, AddressSpace, mem_ref, region_at, insert_at, upper_bound, hits_left, hits_right,
  with_max_prot, store_region, add_region, vec_grow,
}
use zuzu.Vmm.Valid.{Before, IsPlaced, IsValid, region_at-insert_at, length-insert_at}

module _ (rs : List Region) (v : IsValid rs) (s : ℕ) where
  -- The regions before `ins` start at `s` or below, those from `ins` on start above.
  record Splits (ins : ℕ) : Type 0 where
    within : ins ≤ length rs
    below : (i : ℕ) → i < ins → (region_at rs i).vaddr_start ≤ s
    above : (i : ℕ) → ins ≤ i → i < length rs → s < (region_at rs i).vaddr_start

  starts_up :
      (i j : ℕ)
      → i < j
      → j < length rs
      → (region_at rs i).vaddr_start ≤ (region_at rs j).vaddr_start
  starts_up i j h k = omega (arith, v.ordered i j h k)

  upper_bound-Splits :
      (fuel lo hi : ℕ)
      → hi - lo < fuel
      → lo ≤ hi
      → hi ≤ length rs
      → ((i : ℕ) → i < lo → (region_at rs i).vaddr_start ≤ s)
      → ((i : ℕ) → hi ≤ i → i < length rs → s < (region_at rs i).vaddr_start)
      → Splits (upper_bound rs s fuel lo hi)
  unfolding upper_bound
  upper_bound-Splits zero lo hi f le top below above = absurd (omega arith)
  upper_bound-Splits (suc fuel) lo hi f le top below above = elim (Bool-cases (ltb lo hi)) [
    | inr done ↦
        rw done (record {
          within = omega arith;
          below = below;
          above = λ i h k. above i (ground arith) k;
        })
    | inl more ↦
        let mid = lo + (hi - lo) / 2 in
        let inside : (lo ≤ mid) × (mid < hi) = ground arith in
        rw more (elim (Bool-cases (leb (region_at rs mid).vaddr_start s)) [
          | inl e ↦ rw e (
              upper_bound-Splits fuel (mid + 1) hi (omega arith) (omega arith) top
                (λ i h. elim (ℕ_discrete i mid) [
                  | yes q ↦ rw q (ground arith)
                  | no q ↦ ground (arith, starts_up i mid (omega arith) (omega arith))
                ])
                above)
          | inr e ↦ rw e (
              upper_bound-Splits fuel lo mid (omega arith) (omega arith) (omega arith) below
                λ i h k. elim (ℕ_discrete i mid) [
                  | yes q ↦ rw q (ground arith)
                  | no q ↦ ground (arith, starts_up mid i (omega arith) k)
                ])
        ])
  ]

  position-Splits : Splits (upper_bound rs s (suc (length rs)) 0 (length rs))
  position-Splits =
      upper_bound-Splits (suc (length rs)) 0 (length rs) (omega arith) (omega arith) (omega arith)
        (λ i h. absurd (omega arith)) (λ i h k. absurd (omega arith))

-- Two regions that share no address.
abbrev pub Apart : Region → Region → Type 0
Apart a b = Before a b ⊎ Before b a

module _ (rs : List Region) (v : IsValid rs) (r : Region) (p : IsPlaced r) where
  -- The two tests of the neighbours decide whether the new region is clear of all.
  clear_left :
      (ins : ℕ)
      → Splits rs v r.vaddr_start ins
      → hits_left rs ins r ≡ false
      → (i : ℕ) → i < ins
      → Before (region_at rs i) r
  unfolding hits_left
  clear_left zero sp e i h = absurd (omega arith)
  clear_left (suc k) sp e i h = elim (ℕ_discrete i k) [
    | yes q ↦ rw q (ground (arith, v.placed k sp.within))
    | no q ↦ ground (arith, v.placed k sp.within, v.ordered i k (omega arith) sp.within)
  ]

  clear_right :
      (ins : ℕ)
      → hits_right rs ins r ≡ false
      → (i : ℕ) → ins ≤ i
      → i < length rs
      → Before r (region_at rs i)
  unfolding hits_right
  clear_right ins e i h k = elim (ℕ_discrete i ins) [
    | yes q ↦ rw q (ground arith)
    | no q ↦ ground (arith, v.ordered ins i (omega arith) k, v.placed ins (omega arith))
  ]

  overlap_left :
      (ins : ℕ)
      → Splits rs v r.vaddr_start ins
      → hits_left rs ins r ≡ true
      → (i : ℕ) × (i < length rs) × (¬ Apart (region_at rs i) r)
  unfolding hits_left
  overlap_left zero sp e = absurd (cc)
  overlap_left (suc k) sp e = (k, sp.within, λ a. ground (arith, v.placed k sp.within, sp.below k))

  overlap_right :
      (ins : ℕ)
      → Splits rs v r.vaddr_start ins
      → hits_right rs ins r ≡ true
      → (i : ℕ) × (i < length rs) × (¬ Apart (region_at rs i) r)
  unfolding hits_right
  overlap_right ins sp e =
      let h : ins < length rs = ground arith in
      (ins, h, λ a. ground (arith, v.placed ins h, sp.above ins (omega arith) h))

insert_at-IsValid :
    {rs : List Region} (r : Region) (ins : ℕ)
    → IsValid rs
    → IsPlaced r
    → ins ≤ length rs
    → length rs + 1 < 2 ^ 31
    → ((i : ℕ) → i < ins → Before (region_at rs i) r)
    → ((i : ℕ) → ins ≤ i → i < length rs → Before r (region_at rs i))
    → IsValid (insert_at ins r rs)
insert_at-IsValid {rs} r ins v p within few left right = record {
  placed = λ i h. ground (
    arith,
    region_at-insert_at rs ins i r within,
    v.placed i,
    v.placed (i - 1),
    length-insert_at rs ins r within,
  );
  ordered = λ i j h k. ground (
    arith,
    region_at-insert_at rs ins i r within,
    region_at-insert_at rs ins j r within,
    v.ordered i j,
    v.ordered i (j - 1),
    v.ordered (i - 1) (j - 1),
    left i,
    right (j - 1),
    length-insert_at rs ins r within,
  );
  few = omega (arith, length-insert_at rs ins r within);
}

-- What `VmmAddRegion` does, by what it is given.
pub data Added (memory : Bool) (space : AddressSpace) (r : Region)
    : Option AddressSpace → Type 0 where
  overlaps :
      (i : ℕ)
      → i < length space.regions
      → ¬ Apart (region_at space.regions i) r
      → Added memory space r none
  no_memory : memory ≡ false → space.cap ≤ length space.regions → Added memory space r none
  added :
      {space' : AddressSpace} (ins : ℕ)
      → (memory ≡ true) ⊎ (length space.regions < space.cap)
      → ((i : ℕ) → i < length space.regions → Apart (region_at space.regions i) r)
      → space'.regions ≡ insert_at ins (with_max_prot r) space.regions
      → space'.calls ≡ space.calls ++ (mem_ref r.backing ∷ [])
      → IsValid space'.regions
      → Added memory space r (some space')

same_place :
    (r : Region)
    → ((with_max_prot r).vaddr_start ≡ r.vaddr_start) × ((with_max_prot r).size ≡ r.size)
unfolding with_max_prot
same_place r = ground arith

module _ (space : AddressSpace) (r : Region) (v : IsValid space.regions) (p : IsPlaced r)
    (few : length space.regions + 1 < 2 ^ 31) where
  abbrev rs : List Region
  rs = space.regions

  abbrev ins : ℕ
  ins = upper_bound rs r.vaddr_start (suc (length rs)) 0 (length rs)

  stored :
      (memory : Bool) (space' : AddressSpace)
      → (memory ≡ true) ⊎ (length rs < space.cap)
      → space'.regions ≡ rs
      → space'.calls ≡ space.calls
      → hits_left rs ins r ≡ false
      → hits_right rs ins r ≡ false
      → Added memory space r (some (store_region ins r space'))
  unfolding store_region
  stored memory space' room same calls no_left no_right =
      let sp = position-Splits rs v r.vaddr_start in
      let left = clear_left rs v r p ins sp no_left in
      let right = clear_right rs v r p ins no_right in
      let new =
        insert_at-IsValid (with_max_prot r) ins v (ground (arith, same_place r)) sp.within few
          (λ i h. omega (arith, same_place r, left i h))
          (λ i h k. omega (arith, same_place r, right i h k)) in
      added ins room
        (λ i h. elim (dec_lt i ins) [
          | yes q ↦ inl (left i q)
          | no q ↦ inr (right i (omega arith) h)
        ])
        (rw same) (rw calls) (rw same new)

  size_test : (r.size == 0) ≡ false
  size_test = ground (arith, p.some_size)

  grown :
      (memory : Bool)
      → space.cap ≤ length rs
      → hits_left rs ins r ≡ false
      → hits_right rs ins r ≡ false
      → Added memory space r (elim (vec_grow memory space) [
        | none ↦ none
        | some space' ↦ some (store_region ins r space')
      ])
  unfolding vec_grow
  grown true full no_left no_right = stored true _ (inl refl) refl refl no_left no_right
  grown false full no_left no_right = no_memory refl full

  fits :
      (memory : Bool)
      → hits_left rs ins r ≡ false
      → hits_right rs ins r ≡ false
      → Added memory space r (
          if leb space.cap (length rs)
          then (elim (vec_grow memory space) [
            | none ↦ none
            | some space' ↦ some (store_region ins r space')
          ])
          else some (store_region ins r space))
  unfolding vec_grow
  fits memory no_left no_right = elim (Bool-cases (leb space.cap (length rs))) [
    | inr room ↦ rw room (stored memory space (inr (ground arith)) refl refl no_left no_right)
    | inl grows ↦ rw grows (grown memory (ground arith) no_left no_right)
  ]

  -- In a valid address space with room for one more region in its count, and for a region that is
  -- not empty and ends a page or more before the end of the address space: `VmmAddRegion` refuses a
  -- region that overlaps one of the list; refuses one for which the vector is full and cannot grow;
  -- and otherwise, where the region overlaps none and the vector has room or grows, inserts it, with its protection ceiling filled in,
  -- takes a reference on its backing object, and keeps the list sorted and free of overlaps.
  pub add_region-Added : (memory : Bool) → Added memory space r (add_region memory space r)
  unfolding add_region vec_grow
  add_region-Added memory = elim (Bool-cases (hits_left rs ins r)) [
    | inl e ↦
        let (i, h, a) = overlap_left rs v r p ins (position-Splits rs v r.vaddr_start) e in
        rw (size_test, e) (overlaps i h a)
    | inr no_left ↦ elim (Bool-cases (hits_right rs ins r)) [
      | inl e ↦
          let (i, h, a) = overlap_right rs v r p ins (position-Splits rs v r.vaddr_start) e in
          rw (size_test, no_left, e) (overlaps i h a)
      | inr no_right ↦ rw (size_test, no_left, no_right) (fits memory no_left no_right)
    ]
  ]
