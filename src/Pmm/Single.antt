-- ===== src/Pmm/Single.antt =====
-- What PmmFreeFrame of kernel/mm/pmm/pmm.c promises.
use zuzu.Base.{
  ℕ, ◌+◌, ◌/◌, ◌%◌, ◌^◌, ◌≤◌, ◌<◌, ◌≡◌, ◌∙◌, inl, inr, true, false, Option, none, some, List, ◌∷◌,
  arith, ltb, leb, ◌==◌, if◌then◌else◌, Bool-cases,
}
use zuzu.Bitmap
use zuzu.Pmm.Defs.{
  Pmm, pa_to_pfn, is_taken, push_node, syspage_update, freed_at, free_frame, write_if, write,
}
use zuzu.Pmm.Chain.{IsFreeList, push_node-IsFreeList}
use zuzu.Pmm.Valid.{frame, free_count-le, IsConsistent, count-clr}
use zuzu.Pmm.Change.{
  frame_eq, frame_pos, frame_index, inside, give-IsConsistent, taken-Lacks, is_taken-clr,
}
use zuzu.Pmm.Take.{syspage-Alike}

-- A taken frame is free afterwards and first in the free list; a frame that is free stops the kernel.
pub data FreedFrame (s : Pmm) (l : List ℕ) (i : ℕ) : Option Pmm → Type 0 where
  freed :
      (t : Pmm)
      → is_taken s i ≡ true
      → IsConsistent t (frame s i ∷ l)
      → ((j : ℕ) → is_taken t j ≡ (if i == j then false else is_taken s j))
      → FreedFrame s l i (some t)
  double_free : is_taken s i ≡ false → FreedFrame s l i none

module _ (s : Pmm) (l : List ℕ) (i : ℕ) (c : IsConsistent s l) (managed : i < s.total_frames)
    (taken : is_taken s i ≡ true) where
  room : s.free_frames + 1 ≤ s.total_frames
  unfolding is_taken
  room = omega (
    arith,
    c.counted,
    count-clr s.bitmap i (inside s l c i managed) s.total_frames managed taken,
    free_count-le (Bitmap.clr 8 s.bitmap i) s.total_frames,
  )

  no_wrap : (s.free_frames + 1) % 2 ^ 32 ≡ s.free_frames + 1
  no_wrap = omega (arith, room, c.size, c.addressable)

  given :
      ((j : ℕ)
        → is_taken (push_node (freed_at s i) (frame s i)) j
          ≡ (if i == j then false else is_taken s j))
      × IsConsistent (push_node (freed_at s i) (frame s i)) (frame s i ∷ l)
  unfolding push_node is_taken
  given =
      let pa = frame s i in
      let old : IsFreeList (freed_at s i) l = record {
        linked = c.free_list.linked;
        distinct = c.free_list.distinct;
      } in
      let f =
        push_node-IsFreeList (freed_at s i) pa l (frame_pos s l c i managed)
          (taken-Lacks s l i c managed taken) old in
      (
        λ j. is_taken-clr s l c i j managed,
        rw no_wrap (
            give-IsConsistent s i managed l (write s.node_next pa s.freelist_head)
              (write_if (write s.node_prev pa 0) s.freelist_head pa) pa c taken
              (record { linked = f.linked; distinct = f.distinct })),
      )

-- On a consistent state, whose free list holds the frames with a clear bit, each once, PmmFreeFrame of
-- a managed frame puts a taken frame back, all other frames being as before, and panics
-- on a free one.
pub free_frame-FreedFrame :
    (s : Pmm) (l : List ℕ) (i : ℕ)
    → IsConsistent s l
    → i < s.total_frames
    → FreedFrame s l i (free_frame s (frame s i))
unfolding free_frame
free_frame-FreedFrame s l i c managed =
    let e = frame_index s l c i managed in
    let fe = frame_eq s l c i managed in
    let t1 : frame s i % 4096 == 0 ≡ true = ground (arith, fe) in
    let lo : leb s.pfn_base (pa_to_pfn (frame s i)) ≡ true = ground (arith, fe) in
    let hi : ltb (pa_to_pfn (frame s i)) s.pfn_end ≡ true = let q = c.size in ground (arith, fe) in
    let t2 : ltb (i / 8) s.bitmap_bytes ≡ true =
      let n = inside s l c i managed in let q = c.bytes_eq in ground arith in
    let count = free_count-le s.bitmap s.total_frames in
    let t3 : leb s.free_frames s.total_frames ≡ true = let q = c.counted in ground arith in
    elim (Bool-cases (is_taken s i)) [
      | inl taken ↦ rw (e, t1, lo, hi, t2, t3, taken) (freed_one taken)
      | inr clear ↦ rw (e, t1, lo, hi, t2, t3, clear) (double_free clear)
    ]
  where
    freed_one :
        is_taken s i ≡ true
        → FreedFrame s l i (
            if leb ((s.free_frames + 1) % 2 ^ 32) s.total_frames
            then some (syspage_update (push_node (freed_at s i) (frame s i)))
            else none)
    freed_one taken =
        let g = given s l i c managed taken in
        let a = syspage-Alike (push_node (freed_at s i) (frame s i)) (frame s i ∷ l) g.1 in
        let fits : leb ((s.free_frames + 1) % 2 ^ 32) s.total_frames ≡ true =
          let q = room s l i c managed taken in
          let r = no_wrap s l i c managed taken in ground arith in
        rw fits (
          freed (syspage_update (push_node (freed_at s i) (frame s i))) taken a.consistent
            (λ j. a.same_bits j ∙ g.0 j))
