-- ===== src/Pmm/Runs.antt =====
-- What PmmAllocFramesContig and PmmAllocFramesContigAligned of kernel/mm/pmm/pmm.c promise.
use zuzu.Base.{
  ℕ, ◌+◌, ◌-◌, ◌*◌, ◌/◌, ◌%◌, ◌^◌, ◌≤◌, ◌<◌, ◌≡◌, refl, inl, inr, Bool, true, false, not, ◌&&◌,
  Option, some, List, ◌++◌, arith, ltb, leb, ◌==◌, Bool-cases,
}
use zuzu.Pmm.Defs.{
  Pmm, Subscriber, Call, pfn_to_pa, is_taken, signal_loop, free_pct, signal_subscribers,
  syspage_update,
}
use zuzu.Pmm.Range.{
  ok, sized, marked, mark_range, run_scan, run_claimed, claim_run, alloc_frames_contig, is_power,
  alloc_frames_contig_aligned,
}
use zuzu.Pmm.Valid.{frame, free_count-le, IsConsistent, IsConsistent-calls}
use zuzu.Pmm.Scan.{Fits, FirstRun, missing, first_at, run_scan-FirstRun}
use zuzu.Pmm.Marking.{Marked, mark_loop-Marked}

calls-Marked :
    (s : Pmm) (a n : ℕ) (t : Pmm) (b : Bool) (subs : List Subscriber) (cs : List Call)
    → Marked s a n t
    → Marked s a n (record t { in_pressure = b; subscribers = subs; calls = cs })
unfolding is_taken
calls-Marked s a n t b subs cs m = record {
  free_list = m.free_list;
  consistent = IsConsistent-calls t m.free_list b subs cs m.consistent;
  same_base = m.same_base;
  same_total = m.same_total;
  ready = m.ready;
  bits = m.bits;
}

signal-Marked : (s : Pmm) (a n : ℕ) (t : Pmm) → Marked s a n t → Marked s a n (signal_subscribers t)
unfolding signal_subscribers
signal-Marked s a n t m =
    let r = signal_loop t.subscribers in
    elim (Bool-cases (not t.in_pressure && ltb (free_pct t) 20)) [
      | inl u ↦ rw u (calls-Marked s a n t true r.0 (t.calls ++ r.1) m)
      | inr u ↦ elim (Bool-cases (t.in_pressure && ltb 30 (free_pct t))) [
        | inl v ↦ rw (u, v) (calls-Marked s a n t false t.subscribers t.calls m)
        | inr v ↦ rw (u, v) m
      ]
    ]

-- A run is handed out: the first that fits, which is taken from then on, all other frames being as
-- before. Otherwise nothing changes.
pub data RunTaken (s : Pmm) (align want : ℕ) : Option (ℕ × Pmm) → Type 0 where
  too_few : s.free_frames < want → RunTaken s align want (some (0, s))
  no_run : ((k : ℕ) → Fits s align want k → ⊥) → RunTaken s align want (some (0, s))
  ran :
      (f : ℕ) (t : Pmm)
      → Fits s align want f
      → ((k : ℕ) → Fits s align want k → f ≤ k)
      → Marked s f want t
      → RunTaken s align want (some (frame s f, t))

module _ (s : Pmm) (l : List ℕ) (c : IsConsistent s l) (ready : s.freelist_ready ≡ true)
    (below : s.pfn_end * 4096 < 2 ^ 32) where
  sized_lem : sized s ≡ true
  sized_lem =
      let e : (s.pfn_end + 2 ^ 32 - s.pfn_base) % 2 ^ 32 ≡ s.total_frames = omega (arith, c.size) in
      let b : leb s.total_frames (s.bitmap_bytes * 8) ≡ true = let q = c.bytes in ground arith in
      let t : s.total_frames == s.total_frames ≡ true = ground arith in rw (e, t, b) refl

  mark_range-Marked :
      (f n : ℕ)
      → 0 < n
      → f + n ≤ s.total_frames
      → (t : Pmm) × ((mark_range s (pfn_to_pa (s.pfn_base + f)) (pfn_to_pa (s.pfn_base + f + n))
            ≡ some (ok, t))
          × Marked s f n t)
  unfolding mark_range marked
  mark_range-Marked f n pos le =
      let m = mark_loop-Marked n s l f c le ready in
      let end = s.pfn_base + f + n in
      let top : end * 4096 < 2 ^ 32 = omega (arith, c.size, below) in
      let pa1 : pfn_to_pa (s.pfn_base + f) ≡ (s.pfn_base + f) * 4096 = omega arith in
      let pa2 : pfn_to_pa end ≡ end * 4096 = omega arith in
      let order : leb (end * 4096) ((s.pfn_base + f) * 4096) ≡ false = ground arith in
      let first : (s.pfn_base + f) * 4096 / 4096 * 4096 / 4096 ≡ s.pfn_base + f = omega arith in
      let last : (end * 4096 + 4095) % 2 ^ 32 / 4096 * 4096 / 4096 ≡ end = omega arith in
      let lo : ltb (s.pfn_base + f) s.pfn_base ≡ false = ground arith in
      let hi : ltb s.pfn_end end ≡ false = let q = c.size in ground arith in
      let some_ram : ltb s.pfn_base s.pfn_end ≡ true = let q = c.size in ground arith in
      let count : end - (s.pfn_base + f) ≡ n = omega arith in
      (
        m.0,
        (rw (pa1, pa2, order, first, last, lo, hi, some_ram, sized_lem, count, m.1.0) refl, m.1.1),
      )

  claim_run-RunTaken :
      (align want : ℕ) (r : Option ℕ)
      → 0 < want
      → FirstRun s align want r
      → RunTaken s align want (claim_run s want r)
  unfolding claim_run run_claimed syspage_update
  claim_run-RunTaken align want r pos (missing h) = no_run h
  claim_run-RunTaken align want r pos (first_at f fits least) =
      let m = mark_range-Marked f want pos fits.inside_ram in
      let t = m.0 in
      let called = calls-Marked s f want t t.in_pressure t.subscribers _ m.1.1 in
      rw m.1.0
        (ran f (signal_subscribers (syspage_update t)) fits least (signal-Marked s f want _ called))

  free_le_total : s.free_frames ≤ s.total_frames
  free_le_total = omega (arith, c.counted, free_count-le s.bitmap s.total_frames)

  -- PmmAllocFramesContig fails no assertion where RAM ends below the top of the address space. It hands
  -- out the first run of `n` free frames and takes exactly its frames; without such a run, or with fewer
  -- free frames than that, it returns 0 and changes nothing.
  pub alloc_frames_contig-RunTaken : (n : ℕ) → 0 < n → RunTaken s 1 n (alloc_frames_contig s n)
  unfolding alloc_frames_contig
  alloc_frames_contig-RunTaken n pos =
      let nz : n == 0 ≡ false = ground arith in
      elim (Bool-cases (ltb s.free_frames n)) [
        | inl few ↦ rw (nz, few) (too_few (ground arith))
        | inr enough ↦
            let le = free_le_total in
            let t1 : leb s.free_frames s.total_frames ≡ true = ground arith in
            let t2 : leb n s.total_frames ≡ true = ground arith in
            rw (nz, enough, sized_lem, t1, t2)
              (claim_run-RunTaken 1 n (run_scan s 1 n s.total_frames 0 0 0) pos
                (run_scan-FirstRun s 1 n pos c.bytes))
      ]

  -- On a consistent state, whose free list is built and holds the frames with a clear bit, each once,
  -- where RAM ends below the top of the address space: for a count that is not 0 and an alignment that is
  -- a power of two, PmmAllocFramesContigAligned fails no assertion. It hands out the first run of `n` free
  -- frames that starts at a frame number divisible by the alignment and takes exactly its frames; without
  -- such a run, or with fewer free frames than that, it returns 0 and changes nothing.
  pub alloc_frames_contig_aligned-RunTaken :
      (n align : ℕ)
      → 0 < n
      → 0 < align
      → is_power 32 align ≡ true
      → RunTaken s align n (alloc_frames_contig_aligned s n align)
  unfolding alloc_frames_contig_aligned
  alloc_frames_contig_aligned-RunTaken n align pos apos power =
      let nz : n == 0 ≡ false = ground arith in
      let az : align == 0 ≡ false = ground arith in
      elim (Bool-cases (ltb s.free_frames n)) [
        | inl few ↦ rw (az, nz, power, few) (too_few (ground arith))
        | inr enough ↦
            rw (az, nz, power, enough, sized_lem)
              (claim_run-RunTaken align n (run_scan s align n s.total_frames 0 0 0) pos
                (run_scan-FirstRun s align n pos c.bytes))
      ]
