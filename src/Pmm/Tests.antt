-- ===== src/Pmm/Tests.antt =====
-- The theorems of `Pmm` on three frames, of which the last two are free.
use zuzu.Base.{
  ℕ, zero, suc, ◌+◌, ◌*◌, ◌%◌, ◌<◌, ◌≡◌, refl, inl, inr, true, false, List, [], ◌∷◌, arith, ◌==◌,
  if◌then◌else◌,
}
use mathlib.Core.Bool.{true≢false}
use zuzu.Base.Bits.{test_bit}
use zuzu.Bitmap.{test}
use zuzu.Pmm.Defs.{Pmm, is_taken, alloc_frame, free_frame}
use zuzu.Pmm.Range.{is_power, alloc_frames_contig_aligned}
use zuzu.Pmm.Chain.{IsFreeList}
use zuzu.Pmm.Valid.{free_count, IsConsistent, IsFree, Member}
use zuzu.Pmm.Take.{TakenFrame, alloc_frame-TakenFrame}
use zuzu.Pmm.Single.{FreedFrame, free_frame-FreedFrame}
use zuzu.Pmm.Runs.{RunTaken, alloc_frames_contig_aligned-RunTaken}

-- Frame 6 is in front of frame 5.
abbrev two_free : Pmm
two_free = record {
  pfn_base = 4;
  pfn_end = 7;
  total_frames = 3;
  free_frames = 2;
  bitmap = 249 ∷ [];
  bitmap_bytes = 1;
  freelist_head = 24576;
  freelist_ready = true;
  in_pressure = false;
  node_next = λ x. if 24576 == x then 20480 else 0;
  node_prev = λ x. if 20480 == x then 24576 else 0;
  subscribers = [];
  calls = [];
}

abbrev two_frames : List ℕ
two_frames = 24576 ∷ 20480 ∷ []

two_free-IsFreeList : IsFreeList two_free two_frames
two_free-IsFreeList = record {
  linked = (refl, (omega arith, (refl, (refl, (omega arith, (refl, refl))))));
  distinct = ((λ e. absurd (omega arith), tt), (tt, tt));
}

two_free-IsConsistent : IsConsistent two_free two_frames
unfolding is_taken test test_bit free_count
two_free-IsConsistent = record {
  free_list = two_free-IsFreeList;
  base_pos = omega arith;
  size = refl;
  addressable = omega arith;
  bytes_eq = refl;
  bytes = omega arith;
  listed = listed;
  complete = complete;
  counted = refl;
}
  where
    listed : (x : ℕ) → Member x two_frames → IsFree two_free x
    listed x (inl e) = record { index = 2; managed = omega arith; address = e; clear = refl }
    listed x (inr (inl e)) = record { index = 1; managed = omega arith; address = e; clear = refl }
    listed x (inr (inr m)) = absurd m

    complete :
        (i : ℕ)
        → i < 3
        → is_taken two_free i ≡ false
        → Member ((4 + i) * 4096 % 4294967296) two_frames
    complete zero lt clr = absurd (true≢false clr)
    complete (suc zero) lt clr = inr (inl refl)
    complete (suc (suc zero)) lt clr = inl refl
    complete (suc (suc (suc i))) lt clr = absurd (omega arith)

alloc_frame-TakenFrame_example : TakenFrame two_free two_frames (alloc_frame two_free)
alloc_frame-TakenFrame_example = alloc_frame-TakenFrame two_free two_frames two_free-IsConsistent

free_frame-FreedFrame_example : FreedFrame two_free two_frames 0 (free_frame two_free 16384)
free_frame-FreedFrame_example =
    free_frame-FreedFrame two_free two_frames 0 two_free-IsConsistent (omega arith)

alloc_frames_contig_aligned-RunTaken_example :
    RunTaken two_free 2 1 (alloc_frames_contig_aligned two_free 1 2)
unfolding is_power
alloc_frames_contig_aligned-RunTaken_example =
    alloc_frames_contig_aligned-RunTaken two_free two_frames two_free-IsConsistent refl
      (omega arith) 1 2 (omega arith) (omega arith) refl
