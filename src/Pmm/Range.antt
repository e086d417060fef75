-- ===== src/Pmm/Range.antt =====
-- The functions of kernel/mm/pmm/pmm.c for ranges and runs of frames.
use zuzu.Base.{
  ℕ, zero, suc, ◌+◌, ◌-◌, ◌*◌, ◌/◌, ◌%◌, ◌^◌, Bool, true, false, not, ◌&&◌, ◌||◌, Option, none,
  some, ◌>>=◌, List, [], ◌∷◌, ltb, leb, ◌==◌, if◌then◌else◌,
}
use zuzu.Bitmap
use zuzu.Vmm.Defs.{align_up}
use zuzu.Pmm.Defs.{
  Pmm, page_size, pfn_to_pa, pa_to_pfn, is_taken, is_recorded, push_node, unlink_node,
  rebuild_freelist, assert, take_free_frame, syspage_update, signal_subscribers,
}

pub data Err : Type 0 where
  ok : Err
  bad_arg : Err

abbrev pub align_down : ℕ → ℕ
align_down a = a / page_size * page_size

-- The assertions that the functions for ranges share. The span is a difference of words.
abbrev pub span : Pmm → ℕ
span s = (s.pfn_end + 2 ^ 32 - s.pfn_base) % 2 ^ 32

abbrev pub sized : Pmm → Bool
sized s = (s.total_frames == span s) && leb s.total_frames (s.bitmap_bytes * 8)

abbrev pub sane : Pmm → Bool
sane s = ltb s.pfn_base s.pfn_end && sized s

-- A free frame is marked; the flag asks for a new free list.
unfoldable pub mark_free : Pmm → ℕ → Bool → Option (Pmm × Bool)
mark_free s pfn needs_rebuild =
    let index = pfn - s.pfn_base in
    let pa = pfn_to_pa pfn in
    let t = record s {
      bitmap = Bitmap.put 8 s.bitmap index;
      free_frames = if ltb 0 s.free_frames then s.free_frames - 1 else s.free_frames;
    } in
    let linked = is_recorded s (s.node_prev pa) && is_recorded s (s.node_next pa) in
    assert (leb t.free_frames t.total_frames) (
      some (
        if s.freelist_ready
        then (if linked then (unlink_node t pa, needs_rebuild) else (t, true))
        else (t, needs_rebuild)))

unfoldable pub mark_at : ℕ → Pmm × Bool → Option (Pmm × Bool)
mark_at pfn (s, needs_rebuild) =
    let index = pfn - s.pfn_base in
    assert (ltb (index / 8) s.bitmap_bytes)
      (if is_taken s index then some (s, needs_rebuild) else mark_free s pfn needs_rebuild)

-- `n` frames left, from `pfn` on.
unfoldable pub mark_loop : ℕ → ℕ → Pmm × Bool → Option (Pmm × Bool)
mark_loop zero pfn r = some r
mark_loop (suc n) pfn r = do t ← mark_at pfn r; mark_loop n (pfn + 1) t

unfoldable pub marked : Pmm × Bool → Option (Err × Pmm)
marked (s, needs_rebuild) = some (ok, if needs_rebuild then rebuild_freelist s else s)

unfoldable pub mark_range : Pmm → ℕ → ℕ → Option (Err × Pmm)
mark_range s start end =
    let start_pfn = pa_to_pfn (align_down start) in
    let end_pfn = pa_to_pfn (align_up end) in
    if leb end start
    then some (bad_arg, s)
    else if ltb start_pfn s.pfn_base || ltb s.pfn_end end_pfn
    then some (bad_arg, s)
    else assert (sane s) (do r ← mark_loop (end_pfn - start_pfn) start_pfn (s, false); marked r)

unfoldable pub unmark_taken : Pmm → ℕ → Option Pmm
unmark_taken s pfn =
    let t = record s {
      bitmap = Bitmap.clr 8 s.bitmap (pfn - s.pfn_base);
      free_frames = if ltb s.free_frames s.total_frames then s.free_frames + 1 else s.free_frames;
    } in
    assert (leb t.free_frames t.total_frames)
      (some (if s.freelist_ready then push_node t (pfn_to_pa pfn) else t))

unfoldable pub unmark_at : ℕ → Pmm → Option Pmm
unmark_at pfn s =
    let index = pfn - s.pfn_base in
    assert (ltb (index / 8) s.bitmap_bytes)
      (if is_taken s index then unmark_taken s pfn else some s)

unfoldable pub unmark_loop : ℕ → ℕ → Pmm → Option Pmm
unmark_loop zero pfn s = some s
unmark_loop (suc n) pfn s = do t ← unmark_at pfn s; unmark_loop n (pfn + 1) t

unfoldable pub unmarked : Pmm → Option (Err × Pmm)
unmarked s = some (ok, s)

unfoldable pub unmark_range : Pmm → ℕ → ℕ → Option (Err × Pmm)
unmark_range s start end =
    let start_pfn = pa_to_pfn (align_down start) in
    let end_pfn = pa_to_pfn (align_up end) in
    if leb end start
    then some (bad_arg, s)
    else if ltb start_pfn s.pfn_base || ltb s.pfn_end end_pfn
    then some (bad_arg, s)
    else assert (sane s) (do r ← unmark_loop (end_pfn - start_pfn) start_pfn s; unmarked r)

-- The search for `want` free frames in a row whose first has an aligned number: `n` frames left, from
-- `index` on, behind a run of `consecutive` free frames from `start` on. An alignment of 1 is none.
unfoldable pub run_scan : (s : Pmm) (align want : ℕ) → ℕ → ℕ → ℕ → ℕ → Option ℕ
run_scan s align want zero index consecutive start = none
run_scan s align want (suc n) index consecutive start =
    let first = if consecutive == 0 then index else start in
    let again = run_scan s align want n (index + 1) 0 start in
    let longer = run_scan s align want n (index + 1) (consecutive + 1) first in
    if consecutive == 0 && not ((s.pfn_base + index) % align == 0)
    then again
    else if leb s.bitmap_bytes (index / 8)
    then none
    else if is_taken s index
    then again
    else if consecutive + 1 == want
    then some first
    else longer

unfoldable pub run_claimed : ℕ → Err × Pmm → Option (ℕ × Pmm)
run_claimed pa (ok, t) = some (pa, signal_subscribers (syspage_update t))
run_claimed pa (bad_arg, t) = some (0, t)

-- PA_NULL is 0.
unfoldable pub claim_run : Pmm → ℕ → Option ℕ → Option (ℕ × Pmm)
claim_run s want none = some (0, s)
claim_run s want (some first) = do
  r ← mark_range s (pfn_to_pa (s.pfn_base + first)) (pfn_to_pa (s.pfn_base + first + want))
  run_claimed (pfn_to_pa (s.pfn_base + first)) r

unfoldable pub alloc_frames_contig : Pmm → ℕ → Option (ℕ × Pmm)
alloc_frames_contig s n_frames =
    if n_frames == 0 || ltb s.free_frames n_frames
    then some (0, s)
    else assert (sized s && (leb s.free_frames s.total_frames && leb n_frames s.total_frames))
        (claim_run s n_frames (run_scan s 1 n_frames s.total_frames 0 0 0))

-- Is a number a power of two? For one of 32 bits that is not 0, `n & (n - 1)` is then 0.
unfoldable pub is_power : ℕ → ℕ → Bool
is_power zero n = false
is_power (suc k) n = let half = is_power k (n / 2) in if n == 1 then true else n % 2 == 0 && half

unfoldable pub alloc_frames_contig_aligned : Pmm → ℕ → ℕ → Option (ℕ × Pmm)
alloc_frames_contig_aligned s n_frames align_frames =
    let align = if align_frames == 0 then 1 else align_frames in
    if n_frames == 0
    then some (0, s)
    else if not (is_power 32 align)
    then some (0, s)
    else if ltb s.free_frames n_frames
    then some (0, s)
    else assert (sized s) (claim_run s n_frames (run_scan s align n_frames s.total_frames 0 0 0))

unfoldable pub scatter_cons : ℕ → List ℕ × Pmm → Option (List ℕ × Pmm)
scatter_cons pa (pas, s) = some (pa ∷ pas, s)

unfoldable pub scatter_on : (Pmm → Option (List ℕ × Pmm)) → ℕ × Pmm → Option (List ℕ × Pmm)
scatter_on rest (pa, s) =
    let more = rest s in
    if pa == 0 then some ([], syspage_update s) else (do r ← more; scatter_cons pa r)

-- The addresses of `m` frames, in order; fewer where the memory is used up.
unfoldable pub scatter_loop : ℕ → Pmm → Option (List ℕ × Pmm)
scatter_loop zero s = some ([], syspage_update s)
scatter_loop (suc m) s = do r ← take_free_frame s; scatter_on (scatter_loop m) r

unfoldable pub alloc_frames_scattered : Pmm → ℕ → Option (List ℕ × Pmm)
alloc_frames_scattered s n_frames =
    if n_frames == 0 || ltb s.free_frames n_frames
    then some ([], s)
    else assert (sized s && (leb s.free_frames s.total_frames && leb n_frames s.total_frames))
        (scatter_loop n_frames s)
