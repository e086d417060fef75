-- ===== src/Space/Fresh.antt =====
-- A new space ID names no live space, and there is one wherever a slot is free.
use zuzu.Base.{
  ℕ, zero, suc, ◌+◌, ◌-◌, ◌%◌, ◌^◌, ◌≤◌, ◌<◌, ◌≡◌, refl, ◌∙◌, ◌⊎◌, inl, inr, true, false, not,
  Option, some, arith, ◌==◌, if◌then◌else◌, Bool-cases,
}
use mathlib.Core.Path.{subst}
use zuzu.Space.Ids.{max_spaces, Ids, is_null, spid_advance, spid_scan, spid_alloc}

-- An ID that SpidAlloc may hand out.
pub record IsSpid (n : ℕ) : Type 0 where
  pub positive : 1 ≤ n
  pub in_range : n < 2 ^ 31

-- What SpidAlloc promises.
pub data NewId (s : Ids) (sp : ℕ) : ℕ × Ids → Type 0 where
  all_taken :
      (s' : Ids)
      → s'.spaces ≡ s.spaces
      → ((slot : ℕ) → slot < max_spaces → is_null (s.spaces slot) ≡ false)
      → IsSpid s'.next_spid
      → NewId s sp (0, s')
  new_id :
      (n : ℕ) (s' : Ids)
      → IsSpid n
      → is_null (s.spaces (n % max_spaces)) ≡ true
      → ((slot : ℕ) → s'.spaces slot ≡ (if slot == n % max_spaces then some sp else s.spaces slot))
      → IsSpid s'.next_spid
      → NewId s sp (n, s')

spid_advance-IsSpid : (n : ℕ) → IsSpid n → IsSpid (spid_advance n)
unfolding spid_advance
spid_advance-IsSpid n i =
    let a = i.positive in
    let b = i.in_range in record { positive = ground arith; in_range = ground arith }

spid_advance-next : (n : ℕ) → n + 1 < 2 ^ 31 → spid_advance n ≡ n + 1
unfolding spid_advance
spid_advance-next n h = ground arith

-- Where the loop ends: at a free slot, or at one of a full table.
data Ended (spaces : ℕ → Option ℕ) : ℕ → Type 0 where
  at_free : (n : ℕ) → IsSpid n → is_null (spaces (n % max_spaces)) ≡ true → Ended spaces n
  all_met :
      (n : ℕ)
      → IsSpid n
      → ((slot : ℕ) → slot < max_spaces → is_null (spaces slot) ≡ false)
      → Ended spaces n

module _ (spaces : ℕ → Option ℕ) (n : ℕ) (low : 1 ≤ n) (far : n + max_spaces < 2 ^ 31) where
  -- The `d` slots from that of `n` on are taken.
  abbrev Met : ℕ → Type 0
  Met d = (i : ℕ) → i < d → is_null (spaces ((n + i) % max_spaces)) ≡ false

  all_slots : Met max_spaces → (slot : ℕ) → slot < max_spaces → is_null (spaces slot) ≡ false
  all_slots met slot lt =
      let i = (slot + max_spaces - n % max_spaces) % max_spaces in
      let e : (n + i) % max_spaces ≡ slot = omega arith in
      subst (λ k. is_null (spaces k) ≡ false) e (met i (omega arith))

  one_more-Met : (d : ℕ) → Met d → is_null (spaces ((n + d) % max_spaces)) ≡ false → Met (suc d)
  one_more-Met d met here i lt = elim (Bool-cases (i == d)) [
    | inl same ↦ let e : i ≡ d = ground arith in rw e here
    | inr other ↦ met i (ground arith)
  ]

  spid_scan-Ended :
      (fuel d : ℕ)
      → d < max_spaces
      → max_spaces ≤ d + fuel
      → Met d
      → Ended spaces (spid_scan spaces (n % max_spaces) fuel (n + d))
  unfolding spid_scan
  spid_scan-Ended zero d lt enough met = absurd (omega arith)
  spid_scan-Ended (suc fuel) d lt enough met =
      let is : IsSpid (n + d) = record { positive = omega arith; in_range = omega arith } in
      let step : spid_advance (n + d) ≡ n + suc d =
        spid_advance-next (n + d) (omega arith) ∙ omega arith in
      elim (Bool-cases (is_null (spaces ((n + d) % max_spaces)))) [
        | inl free ↦ rw free (at_free (n + d) is free)
        | inr taken ↦
            let met' = one_more-Met d met taken in
            elim (Bool-cases (suc d == max_spaces)) [
              | inl whole ↦
                  let e : suc d ≡ max_spaces = ground arith in
                  let back : ((n + suc d) % max_spaces == n % max_spaces) ≡ true = ground arith in
                  rw (taken, step, back)
                    (all_met (n + suc d) (record { positive = omega arith; in_range = omega arith })
                      (all_slots (subst Met e met')))
              | inr more ↦
                  let on : ((n + suc d) % max_spaces == n % max_spaces) ≡ false = ground arith in
                  rw (taken, step, on)
                    (spid_scan-Ended fuel (suc d) (ground arith) (omega arith) met')
            ]
      ]

handed_out :
    (s : Ids) (sp n : ℕ)
    → Ended s.spaces n
    → NewId s sp (
        if not (is_null (s.spaces (n % max_spaces))) then (0, record s { next_spid = n }) else (
          n,
          record {
            next_spid = spid_advance n;
            spaces = λ slot. if slot == n % max_spaces then some sp else s.spaces slot;
          },
        ))
handed_out s sp n (at_free _ i free) =
    rw free (new_id n _ i free (λ slot. refl) (spid_advance-IsSpid n i))
handed_out s sp n (all_met _ i full) =
    rw (full (n % max_spaces) (omega arith)) (all_taken _ refl full i)

-- From a cursor that is positive and more than 512 below 2^31, SpidAlloc returns an ID from 1 to
-- 2^31 - 1 whose slot was free, registers the space there and leaves the other slots as they were, or
-- it returns 0 and leaves the table as it was, and then all 512 slots are taken; the cursor stays in
-- the range of the IDs.
pub spid_alloc-NewId :
    (s : Ids) (sp : ℕ)
    → 1 ≤ s.next_spid
    → s.next_spid + max_spaces < 2 ^ 31
    → NewId s sp (spid_alloc s sp)
unfolding spid_alloc
spid_alloc-NewId s sp low far =
    let e : s.next_spid + 0 ≡ s.next_spid = omega arith in
    handed_out s sp _ (
      subst (λ k. Ended s.spaces (spid_scan s.spaces (s.next_spid % max_spaces) 1024 k)) e
        (spid_scan-Ended s.spaces s.next_spid low far 1024 0 (omega arith) (omega arith)
          (λ i lt. absurd (omega arith))))

-- A cursor in the last round of the slots before 2^31, but slot 0, which the wrap to 1 passes over.
module _ (spaces : ℕ → Option ℕ) (start : ℕ)
    (others : (slot : ℕ) → 1 ≤ slot → slot < max_spaces → is_null (spaces slot) ≡ false) where
  abbrev InRound : ℕ → Type 0
  InRound n = ((2 ^ 31 - max_spaces + start ≤ n) × (n < 2 ^ 31)) ⊎ ((1 ≤ n) × (n < start))

  round-taken :
      (n : ℕ)
      → 1 ≤ start
      → start < max_spaces
      → InRound n
      → is_null (spaces (n % max_spaces)) ≡ false
  round-taken n low high (inl (a, b)) = others (n % max_spaces) (omega arith) (omega arith)
  round-taken n low high (inr (a, b)) = others (n % max_spaces) (omega arith) (omega arith)

  round-next :
      (n : ℕ)
      → 1 ≤ start
      → start < max_spaces
      → InRound n
      → (spid_advance n % max_spaces == start) ≡ false
      → InRound (spid_advance n)
  unfolding spid_advance
  round-next n low high (inl (a, b)) on = elim (Bool-cases (n + 1 == 2 ^ 31)) [
    | inl last ↦ inr (ground arith)
    | inr more ↦ inl (ground arith)
  ]
  round-next n low high (inr (a, b)) on = inr (ground arith)

  scan-taken :
      (fuel n : ℕ)
      → 1 ≤ start
      → start < max_spaces
      → InRound n
      → is_null (spaces (spid_scan spaces start fuel n % max_spaces)) ≡ false
  unfolding spid_scan
  scan-taken zero n low high i = round-taken n low high i
  scan-taken (suc fuel) n low high i = elim (Bool-cases (spid_advance n % max_spaces == start)) [
    | inl back ↦
        let e : spid_advance n % max_spaces ≡ start = ground arith in
        rw (round-taken n low high i, back, e) (others start low high)
    | inr on ↦
        rw (round-taken n low high i, on)
          (scan-taken fuel (spid_advance n) low high (round-next n low high i on))
  ]

-- From a cursor in the last 511 IDs before 2^31, where all slots but slot 0 are taken, SpidAlloc
-- returns 0 even if slot 0 is free: the step from 2^31 - 1 to 1 passes over it.
pub spid_alloc-wrapped :
    (s : Ids) (sp : ℕ)
    → 2 ^ 31 - max_spaces < s.next_spid
    → s.next_spid < 2 ^ 31
    → ((slot : ℕ) → 1 ≤ slot → slot < max_spaces → is_null (s.spaces slot) ≡ false)
    → (spid_alloc s sp).0 ≡ 0
unfolding spid_alloc
spid_alloc-wrapped s sp low high others =
    let start = s.next_spid % max_spaces in
    let taken =
      scan-taken s.spaces start others 1024 s.next_spid (omega arith) (omega arith)
        (inl (omega arith)) in
    rw taken
