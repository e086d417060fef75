-- ===== src/Pmm/Scan.antt =====
-- The search of PmmAllocFramesContig and PmmAllocFramesContigAligned in kernel/mm/pmm/pmm.c finds the
-- first run.
use zuzu.Base.{
  ℕ, zero, suc, ◌+◌, ◌*◌, ◌/◌, ◌%◌, ◌≤◌, ◌<◌, ◌≡◌, sym, ◌∙◌, ap, inl, inr, true, false, Option,
  none, some, arith, leb, ◌==◌, if◌then◌else◌, Bool-cases,
}
use mathlib.Core.Bool.{true≢false}
use zuzu.Pmm.Defs.{Pmm, is_taken}
use zuzu.Pmm.Range.{run_scan}

-- A run of `want` free frames from `k` on whose first frame has an aligned number.
pub record Fits (s : Pmm) (align want k : ℕ) : Type 0 where
  pub inside_ram : k + want ≤ s.total_frames
  pub aligned : (s.pfn_base + k) % align ≡ 0
  pub clear : (j : ℕ) → k ≤ j → j < k + want → is_taken s j ≡ false

pub data FirstRun (s : Pmm) (align want : ℕ) : Option ℕ → Type 0 where
  missing : ((k : ℕ) → Fits s align want k → ⊥) → FirstRun s align want none
  first_at :
      (f : ℕ)
      → Fits s align want f
      → ((k : ℕ) → Fits s align want k → f ≤ k)
      → FirstRun s align want (some f)

module _ (s : Pmm) (align want : ℕ) (want_pos : 0 < want)
    (bytes : s.total_frames ≤ s.bitmap_bytes * 8) where
  -- Where the loop stands: a run of `consecutive` free frames from `start` ends before `index`, and no run
  -- that fits starts earlier.
  record Standing (index consecutive start : ℕ) : Type 0 where
    pub ends : start + consecutive ≡ index
    pub short : consecutive < want
    pub aligned_start : 0 < consecutive → (s.pfn_base + start) % align ≡ 0
    pub run_clear : (j : ℕ) → start ≤ j → j < index → is_taken s j ≡ false
    pub none_before : (k : ℕ) → Fits s align want k → start ≤ k

  fresh : (index : ℕ) → ((k : ℕ) → Fits s align want k → index ≤ k) → Standing index 0 index
  fresh index h = record {
    ends = omega arith;
    short = want_pos;
    aligned_start = λ p. absurd (omega arith);
    run_clear = λ j a b. absurd (omega arith);
    none_before = h;
  }

  -- A taken frame ends every run that could start up to it.
  broken :
      (index consecutive start : ℕ)
      → Standing index consecutive start
      → is_taken s index ≡ true
      → Standing (index + 1) 0 (index + 1)
  broken index consecutive start st taken = fresh (index + 1) (λ k f.
      elim (Bool-cases (leb k index)) [
        | inl le ↦
            let a = st.none_before k f in
            let b = st.ends in
            let c = st.short in
            absurd (true≢false (sym taken ∙ f.clear index (ground arith) (ground arith)))
        | inr gt ↦ ground arith
      ])

  first_of : ℕ → ℕ → ℕ → ℕ
  first_of index consecutive start = if consecutive == 0 then index else start

  longer :
      (index consecutive start : ℕ)
      → Standing index consecutive start
      → is_taken s index ≡ false
      → (s.pfn_base + start) % align ≡ 0
      → consecutive + 1 < want
      → Standing (index + 1) (consecutive + 1) start
  longer index consecutive start st clear al lt = record {
    ends = omega (arith, st.ends);
    short = lt;
    aligned_start = λ p. al;
    run_clear = λ j a b. elim (Bool-cases (j == index)) [
      | inl e ↦ let q : j ≡ index = ground arith in ap (is_taken s) q ∙ clear
      | inr ne ↦ st.run_clear j a (ground arith)
    ];
    none_before = st.none_before;
  }

  found :
      (index consecutive start : ℕ)
      → Standing index consecutive start
      → is_taken s index ≡ false
      → (s.pfn_base + start) % align ≡ 0
      → consecutive + 1 ≡ want
      → index < s.total_frames
      → FirstRun s align want (some start)
  found index consecutive start st clear al e lt =
      first_at start
        (record {
          inside_ram = omega (arith, st.ends);
          aligned = al;
          clear = λ j a b. elim (Bool-cases (j == index)) [
            | inl q ↦ let p : j ≡ index = ground arith in ap (is_taken s) p ∙ clear
            | inr ne ↦ let w = st.ends in st.run_clear j a (ground arith)
          ];
        })
        st.none_before

  -- From an index on that the run, whose start is `f`, may take in.
  tail :
      (n index consecutive start f : ℕ)
      → index + suc n ≡ s.total_frames
      → Standing index consecutive f
      → (s.pfn_base + f) % align ≡ 0
      → ((c g : ℕ)
          → Standing (index + 1) c (first_of (index + 1) c g)
          → FirstRun s align want (run_scan s align want n (index + 1) c g))
      → FirstRun s align want (
          if leb s.bitmap_bytes (index / 8)
          then none
          else if is_taken s index
          then run_scan s align want n (index + 1) 0 start
          else if consecutive + 1 == want
          then some f
          else run_scan s align want n (index + 1) (consecutive + 1) f)
  unfolding first_of
  tail n index consecutive start f e st al ih =
      let in_bytes : leb s.bitmap_bytes (index / 8) ≡ false = ground arith in
      rw in_bytes (elim (Bool-cases (is_taken s index)) [
        | inl t ↦ rw t (ih 0 start (broken index consecutive f st t))
        | inr c ↦ elim (Bool-cases (consecutive + 1 == want)) [
          | inl w ↦ rw (c, w) (found index consecutive f st c al (ground arith) (omega arith))
          | inr w ↦
              let nz : consecutive + 1 == 0 ≡ false = ground arith in
              let lt : consecutive + 1 < want = let d = st.short in ground arith in
              rw (c, w) (ih (consecutive + 1) f (rw nz (longer index consecutive f st c al lt)))
        ]
      ])

  scan :
      (n index consecutive start : ℕ)
      → index + n ≡ s.total_frames
      → Standing index consecutive (first_of index consecutive start)
      → FirstRun s align want (run_scan s align want n index consecutive start)
  unfolding run_scan first_of
  scan zero index consecutive start e st = missing (λ k f.
      let a = f.inside_ram in
      let b = st.none_before k f in let c = st.ends in let d = st.short in absurd (omega arith))
  scan (suc n) index consecutive start e st =
      let ih = λ (c : ℕ) (f : ℕ) (h : Standing (index + 1) c (first_of (index + 1) c f)).
        scan n (index + 1) c f (omega arith) h in
      elim (Bool-cases (consecutive == 0)) [
        | inl z ↦
            let st' = rw z at st in
            elim (Bool-cases ((s.pfn_base + index) % align == 0)) [
              | inl a ↦ rw (z, a) (tail n index consecutive start index e st' (ground arith) ih)
              | inr na ↦
                  rw (z, na)
                    (scan n (index + 1) 0 start (omega arith) (
                      fresh (index + 1) (λ k f.
                        let b = st'.none_before k f in
                        elim (Bool-cases (k == index)) [
                          | inl q ↦
                              let p : k ≡ index = ground arith in
                              let al = ap (λ x. (s.pfn_base + x) % align) (sym p) ∙ f.aligned in
                              absurd (ground arith)
                          | inr q ↦ ground arith
                        ])))
            ]
        | inr nz ↦
            let st' = rw nz at st in
            rw nz (tail n index consecutive start start e st' (st'.aligned_start (ground arith)) ih)
      ]

-- The search for a run of frames finds the first one that is free throughout and starts at an aligned
-- number, and finds none only where there is none.
pub run_scan-FirstRun :
    (s : Pmm) (align want : ℕ)
    → 0 < want
    → s.total_frames ≤ s.bitmap_bytes * 8
    → FirstRun s align want (run_scan s align want s.total_frames 0 0 0)
unfolding first_of
run_scan-FirstRun s align want pos bytes =
    scan s align want pos bytes s.total_frames 0 0 0 (omega arith)
      (fresh s align want pos bytes 0 (λ k f. omega arith))
