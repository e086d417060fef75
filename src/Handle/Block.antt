-- ===== src/Handle/Block.antt =====
-- `HandleBlockEnsure`: allocating a block gives no slot a handle and takes none away.
use zuzu.Base.{
  ℕ, ◌/◌, ◌%◌, ◌<◌, ◌≡◌, refl, ap, ◌∙◌, Bool, none, some, arith, leb, ◌==◌, if◌then◌else◌, get_or,
  set, replicate, length-set, length-replicate, inl, inr, Option-cases, ◌⊎◌,
}
use zuzu.Handle.Defs.{
  Entry, zero_entry, HandleTable, slot_of, table_get, block_ensure, current, lookup, handle_index,
  block_slots, max_slots,
}
use zuzu.Handle.Slots.{IsShaped, IsConsistent, slot_of-new, set_whole}

-- A free entry is named by no handle.
free_is_not_current : (h : ℕ) → (if current h zero_entry then some zero_entry else none) ≡ none
unfolding current
free_is_not_current h = refl

-- What allocating the block of a slot leaves.
pub record Ensured (t : HandleTable) (slot : ℕ) (t' : HandleTable) : Type 0 where
  pub shaped : IsShaped t'
  pub bits : t'.slot_bitmap ≡ t.slot_bitmap
  pub present : (e : Entry) × (table_get t' slot ≡ some e)
  pub kept : (j : ℕ) (e : Entry) → table_get t j ≡ some e → table_get t' j ≡ some e
  pub fresh :
      (j : ℕ) (e : Entry)
      → table_get t' j ≡ some e
      → (table_get t j ≡ some e) ⊎ ((table_get t j ≡ none) × (e ≡ zero_entry))

with_block : HandleTable → ℕ → HandleTable
with_block t i = record t {
  blocks = set t.blocks (i / block_slots) (some (replicate block_slots zero_entry));
}

module _ (t : HandleTable) (s : IsShaped t) (slot : ℕ) (inside : slot < max_slots) where
  table_get-with_block :
      (j : ℕ)
      → table_get (with_block t slot) j ≡ (
          if leb max_slots j
          then none
          else if slot / block_slots == j / block_slots
          then some zero_entry
          else slot_of t.blocks j)
  unfolding table_get with_block
  table_get-with_block j =
      ap (λ o. if leb max_slots j then none else o)
        (slot_of-new t.blocks slot j (omega (arith, s.all_blocks)))

  no_block :
      (j : ℕ)
      → get_or t.blocks (slot / block_slots) none ≡ none
      → slot / block_slots ≡ j / block_slots
      → slot_of t.blocks j ≡ none
  unfolding slot_of
  no_block j e q =
      let e' : get_or t.blocks (j / block_slots) none ≡ none = rw (← q) e in rw (e', slot_of)

  with_block-IsShaped :
      get_or t.blocks (slot / block_slots) none ≡ none → IsShaped (with_block t slot)
  unfolding with_block
  with_block-IsShaped e = record {
    all_blocks =
        length-set t.blocks (slot / block_slots) (some (replicate block_slots zero_entry))
        ∙ s.all_blocks;
    whole =
        set_whole t s (slot / block_slots) (replicate block_slots zero_entry)
          (length-replicate 64 zero_entry);
    bitmap = s.bitmap;
    words = s.words;
  }

  with_block-Ensured :
      get_or t.blocks (slot / block_slots) none ≡ none → Ensured t slot (with_block t slot)
  unfolding table_get
  with_block-Ensured e = record {
    shaped = with_block-IsShaped e;
    bits = unfold with_block in refl;
    present = (zero_entry, ground (arith, table_get-with_block slot));
    kept = λ j e' h. ground (arith, table_get-with_block j, no_block j e);
    fresh = λ j e' h. ground (arith, table_get-with_block j, no_block j e);
  }

  pub block_ensure-Ensured :
      (memory : Bool) (t' : HandleTable) → block_ensure memory t slot ≡ some t' → Ensured t slot t'
  unfolding block_ensure table_get slot_of with_block
  block_ensure-Ensured memory t' h =
      elim (Option-cases (get_or t.blocks (slot / block_slots) none)) [
        | inr (blk, at) ↦
            let same : t ≡ t' = ground arith in
            rw (← same) (record {
              shaped = s;
              bits = refl;
              present = (get_or blk (slot % block_slots) zero_entry, ground arith);
              kept = λ j e k. k;
              fresh = λ j e k. inl k;
            })
        | inl nothing ↦
            let same : with_block t slot ≡ t' = ground arith in
            rw (← same) (with_block-Ensured nothing)
      ]

-- Allocating a block keeps the table consistent and every handle's meaning.
module _ (t t' : HandleTable) (slot : ℕ) (c : IsConsistent t) (en : Ensured t slot t') where
  pub Ensured-IsConsistent : IsConsistent t'
  Ensured-IsConsistent = record {
    shaped = en.shaped;
    unused = λ i e h k l. elim (en.fresh i e l) [
      | inl old ↦ c.unused i e h (rw (← en.bits) k) old
      | inr new ↦ rw (new.1) refl
    ];
    in_use =
        λ i h k. let (e, at, live) = c.in_use i h (rw (← en.bits) k) in (e, en.kept i e at, live);
    gens = λ i e h. elim (en.fresh i e h) [
      | inl old ↦ c.gens i e old
      | inr new ↦ rw (new.1) (omega arith)
    ];
  }

  pub lookup-Ensured : (h : ℕ) → lookup t' h ≡ lookup t h
  unfolding lookup
  lookup-Ensured h = elim (Option-cases (table_get t' (handle_index h))) [
    | inl nothing ↦ elim (Option-cases (table_get t (handle_index h))) [
      | inl nothing' ↦ rw (nothing, nothing', lookup)
      | inr (e, at) ↦ absurd (ground (arith, en.kept (handle_index h) e at))
    ]
    | inr (e, at) ↦ elim (en.fresh (handle_index h) e at) [
      | inl old ↦ rw (at, old, lookup)
      | inr (old, blank) ↦ rw (at, old, blank, lookup) (free_is_not_current h)
    ]
  ]
