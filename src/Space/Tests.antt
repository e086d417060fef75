-- ===== src/Space/Tests.antt =====
-- The theorems of `Space` at a table with two spaces, and at one with a single free slot.
use zuzu.Base.{◌≡◌, none, some, arith, ◌==◌, if◌then◌else◌}
use zuzu.Space.Ids.{Ids, spid_alloc}
use zuzu.Space.Fresh.{NewId, spid_alloc-NewId, spid_alloc-wrapped}

abbrev two_spaces : Ids
two_spaces = record {
  next_spid = 1;
  spaces = λ slot. if slot == 1 then some 7 else if slot == 2 then some 8 else none;
}

spid_alloc-NewId_example : NewId two_spaces 9 (spid_alloc two_spaces 9)
spid_alloc-NewId_example = spid_alloc-NewId two_spaces 9 (omega arith) (omega arith)

abbrev but_slot_zero : Ids
but_slot_zero = record {
  next_spid = 2147483141;
  spaces = λ slot. if slot == 0 then none else some slot;
}

spid_alloc-wrapped_example : (spid_alloc but_slot_zero 9).0 ≡ 0
spid_alloc-wrapped_example =
    spid_alloc-wrapped but_slot_zero 9 (omega arith) (omega arith) (λ slot a b. ground arith)
