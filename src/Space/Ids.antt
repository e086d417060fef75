-- ===== src/Space/Ids.antt =====
-- The allocation of space IDs: SpidAdvance and SpidAlloc of kernel/space/space.c.
use zuzu.Base.{
  ℕ, zero, suc, ◌+◌, ◌-◌, ◌%◌, ◌^◌, Bool, true, false, not, ◌||◌, Option, none, some, ltb, ◌==◌,
  if◌then◌else◌,
}

abbrev pub max_spaces : ℕ
max_spaces = 512

-- `next_spid` and the table of live spaces, where a space is named by a number.
pub record Ids : Type 0 where
  pub next_spid : ℕ
  pub spaces : ℕ → Option ℕ

abbrev pub is_null : Option ℕ → Bool
is_null none = true
is_null (some x) = false

unfoldable pub spid_advance : ℕ → ℕ
spid_advance n = let n1 = (n + 1) % 2 ^ 32 in if n1 == 0 || ltb (2 ^ 31 - 1) n1 then 1 else n1

-- The loop of SpidAlloc from the ID `n` on, for at most `fuel` rounds; the ID where it ends.
unfoldable pub spid_scan : (ℕ → Option ℕ) → ℕ → ℕ → ℕ → ℕ
spid_scan spaces start zero n = n
spid_scan spaces start (suc fuel) n =
    let next = spid_advance n in
    let rest = spid_scan spaces start fuel next in
    if is_null (spaces (n % max_spaces))
    then n
    else if next % max_spaces == start
    then next
    else rest

-- The result 0 is no ID.
unfoldable pub spid_alloc : Ids → ℕ → ℕ × Ids
spid_alloc s sp =
    let n = spid_scan s.spaces (s.next_spid % max_spaces) 1024 s.next_spid in
    if not (is_null (s.spaces (n % max_spaces))) then (0, record s { next_spid = n }) else (
      n,
      record {
        next_spid = spid_advance n;
        spaces = λ slot. if slot == n % max_spaces then some sp else s.spaces slot;
      },
    )
