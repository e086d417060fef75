-- ===== src/Pmm/Valid.antt =====
-- The well-formed states of the frame allocator, kernel/mm/pmm/pmm.c.
use zuzu.Base.{
  ℕ, zero, suc, ◌+◌, ◌*◌, ◌/◌, ◌^◌, ◌≤◌, ◌<◌, ◌≡◌, refl, ◌⊎◌, inl, inr, Bool, true, false, List, [],
  ◌∷◌, arith, ◌==◌, if◌then◌else◌, Bool-cases, length,
}
use mathlib.Core.Path.{subst}
use zuzu.Bitmap
use zuzu.Bitmap.{test-put, test-clr, length-put, length-clr}
use zuzu.Pmm.Defs.{Pmm, Subscriber, Call, pfn_to_pa, is_taken}
use zuzu.Pmm.Chain.{IsFreeList}

-- The clear bits below `n`.
unfoldable pub free_count : List ℕ → ℕ → ℕ
free_count bm zero = 0
free_count bm (suc n) = free_count bm n + (if Bitmap.test 8 bm n then 0 else 1)

pub free_count-le : (bm : List ℕ) (n : ℕ) → free_count bm n ≤ n
unfolding free_count
free_count-le bm zero = omega arith
free_count-le bm (suc n) = let ih = free_count-le bm n in ground (arith, ih)

abbrev pub Member : ℕ → List ℕ → Type 0
Member x [] = ⊥
Member x (y ∷ l) = (x ≡ y) ⊎ Member x l

-- The physical address of a managed frame.
abbrev pub frame : Pmm → ℕ → ℕ
frame s i = pfn_to_pa (s.pfn_base + i)

-- A managed frame that is not taken.
pub record IsFree (s : Pmm) (x : ℕ) : Type 0 where
  pub index : ℕ
  pub managed : index < s.total_frames
  pub address : x ≡ frame s index
  pub clear : is_taken s index ≡ false

-- The free list `l` holds exactly the managed frames whose bit is clear, each once, and free_frames is
-- their number. RAM starts behind the first page and ends where addresses of 32 bits do, or earlier.
pub record IsConsistent (s : Pmm) (l : List ℕ) : Type 0 where
  pub free_list : IsFreeList s l
  pub base_pos : 0 < s.pfn_base
  pub size : s.pfn_end ≡ s.pfn_base + s.total_frames
  pub addressable : s.pfn_end * 4096 ≤ 2 ^ 32
  pub bytes_eq : length s.bitmap ≡ s.bitmap_bytes
  pub bytes : s.total_frames ≤ s.bitmap_bytes * 8
  pub listed : (x : ℕ) → Member x l → IsFree s x
  pub complete : (i : ℕ) → i < s.total_frames → is_taken s i ≡ false → Member (frame s i) l
  pub counted : s.free_frames ≡ free_count s.bitmap s.total_frames

-- The fields that the pressure signals and the system page leave alone carry the predicate.
pub IsConsistent-calls :
    (s : Pmm) (l : List ℕ) (b : Bool) (subs : List Subscriber) (cs : List Call)
    → IsConsistent s l
    → IsConsistent (record s { in_pressure = b; subscribers = subs; calls = cs }) l
unfolding is_taken
IsConsistent-calls s l b subs cs c = record {
  free_list = record { linked = c.free_list.linked; distinct = c.free_list.distinct };
  base_pos = c.base_pos;
  size = c.size;
  addressable = c.addressable;
  bytes_eq = c.bytes_eq;
  bytes = c.bytes;
  listed = λ x m.
      let f = c.listed x m in
      record { index = f.index; managed = f.managed; address = f.address; clear = f.clear };
  complete = c.complete;
  counted = c.counted;
}

module _ (bm : List ℕ) (i : ℕ) (inside : i / 8 < length bm) where
  pub count-put_above : (n : ℕ) → n ≤ i → free_count (Bitmap.put 8 bm i) n ≡ free_count bm n
  unfolding free_count
  count-put_above zero h = refl
  count-put_above (suc n) h =
      let t = test-put 8 bm i n inside in
      let e : i == n ≡ false = ground arith in
      let u = rw e at t in rw (count-put_above n (omega arith), u) refl

  pub count-put :
      (n : ℕ)
      → i < n
      → Bitmap.test 8 bm i ≡ false
      → free_count (Bitmap.put 8 bm i) n + 1 ≡ free_count bm n
  unfolding free_count
  count-put zero h c = absurd (omega arith)
  count-put (suc n) h c =
      let t = test-put 8 bm i n inside in
      elim (Bool-cases (i == n)) [
        | inl e ↦
            let q : i ≡ n = ground arith in
            let u = rw e at t in
            let v : Bitmap.test 8 bm n ≡ false = subst (λ k. Bitmap.test 8 bm k ≡ false) q c in
            rw (u, v) (omega (arith, count-put_above n (omega arith)))
        | inr e ↦
            let u = rw e at t in
            let lt : i < n = ground arith in rw u (omega (arith, count-put n lt c))
      ]

  pub count-clr_above : (n : ℕ) → n ≤ i → free_count (Bitmap.clr 8 bm i) n ≡ free_count bm n
  unfolding free_count
  count-clr_above zero h = refl
  count-clr_above (suc n) h =
      let t = test-clr 8 bm i n inside in
      let e : i == n ≡ false = ground arith in
      let u = rw e at t in rw (count-clr_above n (omega arith), u) refl

  pub count-clr :
      (n : ℕ)
      → i < n
      → Bitmap.test 8 bm i ≡ true
      → free_count (Bitmap.clr 8 bm i) n ≡ free_count bm n + 1
  unfolding free_count
  count-clr zero h c = absurd (omega arith)
  count-clr (suc n) h c =
      let t = test-clr 8 bm i n inside in
      elim (Bool-cases (i == n)) [
        | inl e ↦
            let q : i ≡ n = ground arith in
            let u = rw e at t in
            let v : Bitmap.test 8 bm n ≡ true = subst (λ k. Bitmap.test 8 bm k ≡ true) q c in
            rw (u, v) (omega (arith, count-clr_above n (omega arith)))
        | inr e ↦
            let u = rw e at t in
            let lt : i < n = ground arith in rw u (omega (arith, count-clr n lt c))
      ]
