-- ===== src/Pmm/Take.antt =====
-- What PmmTakeFreeFrame and PmmAllocFrame of kernel/mm/pmm/pmm.c promise.
use zuzu.Base.{
  ℕ, ◌+◌, ◌-◌, ◌*◌, ◌/◌, ◌%◌, ◌≤◌, ◌<◌, ◌≡◌, refl, sym, ◌∙◌, ap, inl, inr, Bool, true, false, not,
  ◌&&◌, ◌>>=◌, Option, some, List, [], ◌∷◌, ◌++◌, arith, ltb, leb, ◌==◌, if◌then◌else◌, Bool-cases,
}
use mathlib.Core.Path.{subst}
use zuzu.Pmm.Defs.{
  Pmm, Subscriber, Call, pa_to_pfn, is_taken, is_recorded, pop_node, signal_loop, free_pct,
  signal_subscribers, syspage_update, take_head, take_free_frame, taken_at, minus_one,
  update_if_any, alloc_frame, write_if,
}
use zuzu.Pmm.Chain.{pop_node-IsFreeList}
use zuzu.Pmm.Valid.{frame, free_count-le, IsConsistent, IsConsistent-calls, count-put}
use zuzu.Pmm.Change.{frame_eq, frame_pos, frame_index, inside, take-IsConsistent, is_taken-put}

-- The signals change no frame.
pub record Alike (s : Pmm) (l : List ℕ) (t : Pmm) : Type 0 where
  pub consistent : IsConsistent t l
  pub same_bits : (j : ℕ) → is_taken t j ≡ is_taken s j

calls-Alike :
    (s : Pmm) (l : List ℕ) (b : Bool) (subs : List Subscriber) (cs : List Call)
    → IsConsistent s l
    → Alike s l (record s { in_pressure = b; subscribers = subs; calls = cs })
unfolding is_taken
calls-Alike s l b subs cs c = record {
  consistent = IsConsistent-calls s l b subs cs c;
  same_bits = λ j. refl;
}

pub signal-Alike : (s : Pmm) (l : List ℕ) → IsConsistent s l → Alike s l (signal_subscribers s)
unfolding signal_subscribers
signal-Alike s l c =
    let r = signal_loop s.subscribers in
    elim (Bool-cases (not s.in_pressure && ltb (free_pct s) 20)) [
      | inl t ↦ rw t (calls-Alike s l true r.0 (s.calls ++ r.1) c)
      | inr t ↦ elim (Bool-cases (s.in_pressure && ltb 30 (free_pct s))) [
        | inl u ↦ rw (t, u) (calls-Alike s l false s.subscribers s.calls c)
        | inr u ↦ rw (t, u) (record { consistent = c; same_bits = λ j. refl })
      ]
    ]

pub syspage-Alike : (s : Pmm) (l : List ℕ) → IsConsistent s l → Alike s l (syspage_update s)
unfolding syspage_update
syspage-Alike s l c = calls-Alike s l s.in_pressure s.subscribers _ c

-- A frame is taken: the first of the free list, which was free. Without free frames nothing changes.
pub data TakenFrame (s : Pmm) (l : List ℕ) : Option (ℕ × Pmm) → Type 0 where
  none_free : l ≡ [] → TakenFrame s l (some (0, s))
  took :
      (i : ℕ) (rest : List ℕ) (t : Pmm)
      → l ≡ frame s i ∷ rest
      → i < s.total_frames
      → is_taken s i ≡ false
      → IsConsistent t rest
      → ((j : ℕ) → is_taken t j ≡ (if i == j then true else is_taken s j))
      → TakenFrame s l (some (frame s i, t))

module _ (s : Pmm) (i : ℕ) (rest : List ℕ) (c : IsConsistent s (frame s i ∷ rest))
    (managed : i < s.total_frames) (clear : is_taken s i ≡ false) where
  free_pos : 0 < s.free_frames
  unfolding is_taken
  free_pos = omega (
    arith,
    c.counted,
    count-put s.bitmap i (inside s (frame s i ∷ rest) c i managed) s.total_frames managed clear,
  )

  free_le : s.free_frames ≤ s.total_frames
  free_le = omega (arith, c.counted, free_count-le s.bitmap s.total_frames)

  less_one : minus_one s.free_frames ≡ s.free_frames - 1
  less_one = omega (arith, free_pos, free_le, c.size, c.addressable)

  popped-IsConsistent : IsConsistent (taken_at (pop_node s) i) rest
  unfolding pop_node
  popped-IsConsistent =
      let f = pop_node-IsFreeList s (frame s i) rest c.free_list in
      let next = s.node_next s.freelist_head in
      rw less_one (
        take-IsConsistent s i managed [] rest s.node_next (write_if s.node_prev next 0) next c clear
          (record { linked = f.linked; distinct = f.distinct }))

  take_head_eq : take_head s ≡ some (frame s i, signal_subscribers (taken_at (pop_node s) i))
  unfolding take_head is_taken pop_node
  take_head_eq =
      let e : s.freelist_head ≡ frame s i = c.free_list.linked.0 in
      let ei : pa_to_pfn s.freelist_head - s.pfn_base ≡ i =
        ap (λ a. pa_to_pfn a - s.pfn_base) e ∙ frame_index s (frame s i ∷ rest) c i managed in
      let t1 : ltb (i / 8) s.bitmap_bytes ≡ true =
        let n = inside s (frame s i ∷ rest) c i managed in let q = c.bytes_eq in ground arith in
      let t3 : leb (minus_one s.free_frames) s.total_frames ≡ true =
        let a = less_one in let b = free_le in ground arith in
      rw (ei, t1, clear, t3, e) refl

  bits_after :
      (j : ℕ) → is_taken (taken_at (pop_node s) i) j ≡ (if i == j then true else is_taken s j)
  unfolding is_taken pop_node
  bits_after j = is_taken-put s (frame s i ∷ rest) c i j managed

  take_head-TakenFrame : TakenFrame s (frame s i ∷ rest) (take_head s)
  take_head-TakenFrame =
      let a = signal-Alike (taken_at (pop_node s) i) rest popped-IsConsistent in
      rw take_head_eq (
        took i rest (signal_subscribers (taken_at (pop_node s) i)) refl managed clear a.consistent
          (λ j. a.same_bits j ∙ bits_after j))

pub frame-recorded :
    (s : Pmm) (l : List ℕ) (c : IsConsistent s l) (i : ℕ)
    → i < s.total_frames
    → is_recorded s (frame s i) ≡ true
unfolding is_recorded
frame-recorded s l c i h =
    let e = frame_eq s l c i h in
    let z : (s.pfn_base + i) * 4096 == 0 ≡ false = let b = c.base_pos in ground arith in
    let m : (s.pfn_base + i) * 4096 % 4096 == 0 ≡ true = ground arith in
    let lo : leb s.pfn_base ((s.pfn_base + i) * 4096 / 4096) ≡ true = ground arith in
    let hi : ltb ((s.pfn_base + i) * 4096 / 4096) s.pfn_end ≡ true =
      let q = c.size in ground arith in
    rw (e, z, m, lo, hi) refl

pub null-recorded : (s : Pmm) → is_recorded s 0 ≡ true
unfolding is_recorded
null-recorded s = refl

pub take_free_frame-TakenFrame :
    (s : Pmm) (l : List ℕ) → IsConsistent s l → TakenFrame s l (take_free_frame s)
unfolding take_free_frame
take_free_frame-TakenFrame s [] c =
    let e : s.freelist_head == 0 ≡ true = let h = c.free_list.linked in ground arith in
    rw e (none_free refl)
take_free_frame-TakenFrame s (x ∷ r) c =
    let f = c.listed x (inl refl) in
    let whole = subst (λ y. IsConsistent s (y ∷ r)) f.address c in
    let head : s.freelist_head ≡ x = c.free_list.linked.0 in
    let nz : s.freelist_head == 0 ≡ false = let p = c.free_list.linked.1.0 in ground arith in
    let first : is_recorded s s.freelist_head ≡ true =
      ap (is_recorded s) (head ∙ f.address) ∙ frame-recorded s (x ∷ r) c f.index f.managed in
    let second : is_recorded s (s.node_next s.freelist_head) ≡ true =
      ap (λ a. is_recorded s (s.node_next a)) head ∙ next_recorded r c in
    rw (nz, first)
      (rw (nz, second)
        (rw (nz, second)
          (subst (λ y. TakenFrame s (y ∷ r) (take_head s)) (sym f.address)
            (take_head-TakenFrame s f.index r whole f.managed f.clear))))
  where
    next_recorded : (q : List ℕ) → IsConsistent s (x ∷ q) → is_recorded s (s.node_next x) ≡ true
    next_recorded [] d = ap (is_recorded s) d.free_list.linked.1.1.1 ∙ null-recorded s
    next_recorded (y ∷ q) d =
        let g = d.listed y (inr (inl refl)) in
        ap (is_recorded s) (d.free_list.linked.1.1.1.0 ∙ g.address)
        ∙ frame-recorded s (x ∷ y ∷ q) d g.index g.managed

-- On a consistent state, whose free list holds the frames with a clear bit, each once, PmmAllocFrame
-- fails no assertion. It hands out a free frame, which is taken from then on, and all other
-- frames are as before; it returns 0 only where no frame is free.
pub alloc_frame-TakenFrame :
    (s : Pmm) (l : List ℕ) → IsConsistent s l → TakenFrame s l (alloc_frame s)
unfolding alloc_frame
alloc_frame-TakenFrame s l c = go (take_free_frame s) (take_free_frame-TakenFrame s l c)
  where
    go : (r : Option (ℕ × Pmm)) → TakenFrame s l r → TakenFrame s l (do q ← r; update_if_any q)
    go r (none_free e) = none_free e
    go r (took i rest t e managed clear k bits) =
        let a = syspage-Alike t rest k in
        let nz : frame s i == 0 ≡ false = let p = frame_pos s l c i managed in ground arith in
        rw nz (
          took i rest (syspage_update t) e managed clear a.consistent (λ j. a.same_bits j ∙ bits j))
