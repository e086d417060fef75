-- ===== src/Pmm/Marking.antt =====
-- What PmmMarkRange of kernel/mm/pmm/pmm.c does to a range of frames.
use zuzu.Base.{
  ℕ, zero, suc, ◌+◌, ◌-◌, ◌/◌, ◌≤◌, ◌<◌, ◌≡◌, refl, ◌∙◌, ap, ◌⊎◌, inl, inr, Bool, true, false, ◌&&◌,
  Option, some, List, [], ◌∷◌, ◌++◌, arith, ltb, leb, ◌==◌, if◌then◌else◌, Bool-cases,
}
use mathlib.Core.Path.{subst}
use zuzu.Bitmap
use zuzu.Pmm.Defs.{Pmm, is_taken, is_recorded, unlink_node, write_if}
use zuzu.Pmm.Range.{mark_free, mark_at, mark_loop}
use zuzu.Pmm.Chain.{Linked}
use zuzu.Pmm.Unlink.{unlink_node-IsFreeList}
use zuzu.Pmm.Valid.{Member, frame, free_count-le, IsConsistent, count-put}
use zuzu.Pmm.Change.{Member-split, inside, take-IsConsistent, is_taken-put}
use zuzu.Pmm.Take.{frame-recorded, null-recorded}

-- `t` is `s` with the `n` frames from `a` on taken.
pub record Marked (s : Pmm) (a n : ℕ) (t : Pmm) : Type 0 where
  pub free_list : List ℕ
  pub consistent : IsConsistent t free_list
  pub same_base : t.pfn_base ≡ s.pfn_base
  pub same_total : t.total_frames ≡ s.total_frames
  pub ready : t.freelist_ready ≡ true
  pub bits : (j : ℕ) → is_taken t j ≡ (if leb a j && ltb j (a + n) then true else is_taken s j)

-- The links of a frame in the list lead to frames of the list, or are 0.
prev_link :
    (n p : ℕ → ℕ) (a : ℕ) (back f : List ℕ) (q h : ℕ)
    → Linked n p q h (f ++ (a ∷ back))
    → (p a ≡ q) ⊎ Member (p a) (f ++ (a ∷ back))
prev_link n p a back [] q h c = inl c.1.1.0
prev_link n p a back (x ∷ f) q h c = elim (prev_link n p a back f x (n x) c.1.1.1) [
  | inl e ↦ inr (inl e)
  | inr m ↦ inr (inr m)
]

next_link :
    (n p : ℕ → ℕ) (a : ℕ) (back f : List ℕ) (q h : ℕ)
    → Linked n p q h (f ++ (a ∷ back))
    → (n a ≡ 0) ⊎ Member (n a) (f ++ (a ∷ back))
next_link n p a back [] q h c = start back c.1.1.1
  where
    start : (r : List ℕ) → Linked n p a (n a) r → (n a ≡ 0) ⊎ Member (n a) (a ∷ r)
    start [] k = inl k
    start (y ∷ r) k = inr (inr (inl k.0))
next_link n p a back (x ∷ f) q h c = elim (next_link n p a back f x (n x) c.1.1.1) [
  | inl e ↦ inl e
  | inr m ↦ inr (inr m)
]

link-recorded :
    (s : Pmm) (l : List ℕ) (a : ℕ)
    → IsConsistent s l
    → (a ≡ 0) ⊎ Member a l
    → is_recorded s a ≡ true
link-recorded s l a c (inl e) = ap (is_recorded s) e ∙ null-recorded s
link-recorded s l a c (inr m) =
    let f = c.listed a m in ap (is_recorded s) f.address ∙ frame-recorded s l c f.index f.managed

abbrev pub MarkedOne : Pmm → ℕ → Option (Pmm × Bool) → Type 0
MarkedOne s a r = (t : Pmm) × ((r ≡ some (t, false)) × Marked s a 1 t)

one_index :
    (i j : ℕ) (x : Bool)
    → (if i == j then true else x) ≡ (if leb i j && ltb j (i + 1) then true else x)
one_index i j x = ground arith

-- A range of which one frame more is taken.
one_more :
    (i n j : ℕ) (x : Bool)
    → (if leb (i + 1) j && ltb j (i + 1 + n)
        then true
        else if leb i j && ltb j (i + 1)
        then true
        else x)
      ≡ (if leb i j && ltb j (i + suc n) then true else x)
one_more i n j x = ground arith

mark_free-MarkedOne :
    (s : Pmm) (i : ℕ) (front back : List ℕ)
    → IsConsistent s (front ++ (frame s i ∷ back))
    → i < s.total_frames
    → is_taken s i ≡ false
    → s.freelist_ready ≡ true
    → MarkedOne s i (mark_free s (s.pfn_base + i) false)
unfolding mark_free unlink_node is_taken
mark_free-MarkedOne s i front back c managed clear ready =
    let l = front ++ (frame s i ∷ back) in
    let pa = frame s i in
    let n = s.node_next in
    let p = s.node_prev in
    let ei : s.pfn_base + i - s.pfn_base ≡ i = omega arith in
    let pos : 0 < s.free_frames = omega (
      arith,
      c.counted,
      count-put s.bitmap i (inside s l c i managed) s.total_frames managed clear,
    ) in
    let t0 : ltb 0 s.free_frames ≡ true = ground arith in
    let le : leb (s.free_frames - 1) s.total_frames ≡ true =
      let q = c.counted in let r = free_count-le s.bitmap s.total_frames in ground arith in
    let prev_ok =
      link-recorded s l (p pa) c
        (prev_link n p pa back front 0 s.freelist_head c.free_list.linked) in
    let next_ok =
      link-recorded s l (n pa) c
        (next_link n p pa back front 0 s.freelist_head c.free_list.linked) in
    let s1 = record s { bitmap = Bitmap.put 8 s.bitmap i; free_frames = s.free_frames - 1 } in
    let f =
      unlink_node-IsFreeList s1 pa front back
        (record { linked = c.free_list.linked; distinct = c.free_list.distinct }) in
    let after =
      take-IsConsistent s i managed front back (write_if n (p pa) (n pa)) (write_if p (n pa) (p pa))
        (if p pa == 0 then n pa else s.freelist_head) c clear
        (record { linked = f.linked; distinct = f.distinct }) in
    (
      unlink_node s1 pa,
      (
        rw (ei, t0, le, prev_ok, next_ok, ready) refl,
        (record {
          free_list = front ++ back;
          consistent = after;
          same_base = refl;
          same_total = refl;
          ready = ready;
          bits = λ j. is_taken-put s l c i j managed ∙ one_index i j (is_taken s j);
        }),
      ),
    )

mark_at-MarkedOne :
    (s : Pmm) (l : List ℕ) (i : ℕ)
    → IsConsistent s l
    → i < s.total_frames
    → s.freelist_ready ≡ true
    → MarkedOne s i (mark_at (s.pfn_base + i) (s, false))
unfolding mark_at
mark_at-MarkedOne s l i c managed ready =
    let ei : s.pfn_base + i - s.pfn_base ≡ i = omega arith in
    let t1 : ltb (i / 8) s.bitmap_bytes ≡ true =
      let n = inside s l c i managed in let q = c.bytes_eq in ground arith in
    elim (Bool-cases (is_taken s i)) [
      | inl taken ↦
          rw (ei, t1, taken)
            (
              s,
              (
                refl,
                (record {
                  free_list = l;
                  consistent = c;
                  same_base = refl;
                  same_total = refl;
                  ready = ready;
                  bits = λ j. already j taken;
                }),
              ),
            )
      | inr clear ↦
          let m = Member-split (frame s i) l (c.complete i managed clear) in
          let c' = subst (λ k. IsConsistent s k) m.1.1 c in
          rw (ei, t1, clear) (mark_free-MarkedOne s i m.0 m.1.0 c' managed clear ready)
    ]
  where
    already :
        (j : ℕ)
        → is_taken s i ≡ true
        → is_taken s j ≡ (if leb i j && ltb j (i + 1) then true else is_taken s j)
    already j taken = elim (Bool-cases (i == j)) [
      | inl e ↦
          let q : j ≡ i = ground arith in
          let z : is_taken s j ≡ true = ap (is_taken s) q ∙ taken in rw z (ground arith)
      | inr ne ↦ ground arith
    ]

pub mark_loop-Marked :
    (n : ℕ) (s : Pmm) (l : List ℕ) (i : ℕ)
    → IsConsistent s l
    → i + n ≤ s.total_frames
    → s.freelist_ready ≡ true
    → (t : Pmm) × ((mark_loop n (s.pfn_base + i) (s, false) ≡ some (t, false)) × Marked s i n t)
unfolding mark_loop
mark_loop-Marked zero s l i c le ready = (
  s,
  (
    refl,
    (record {
      free_list = l;
      consistent = c;
      same_base = refl;
      same_total = refl;
      ready = ready;
      bits = λ j. ground arith;
    }),
  ),
)
mark_loop-Marked (suc n) s l i c le ready =
    let one = mark_at-MarkedOne s l i c (omega arith) ready in
    let m = one.1.1 in
    let more =
      mark_loop-Marked n one.0 m.free_list (i + 1) m.consistent (omega (arith, m.same_total))
        m.ready in
    let k = more.1.1 in
    let pfn : s.pfn_base + i + 1 ≡ (one.0).pfn_base + (i + 1) = omega (arith, m.same_base) in
    (
      more.0,
      (
        rw (one.1.0, pfn) more.1.0,
        (record {
          free_list = k.free_list;
          consistent = k.consistent;
          same_base = k.same_base ∙ m.same_base;
          same_total = k.same_total ∙ m.same_total;
          ready = k.ready;
          bits = λ j. k.bits j ∙ (rw (m.bits j) (one_more i n j (is_taken s j)));
        }),
      ),
    )
