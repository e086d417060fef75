-- ===== src/Handle/Slots.antt =====
-- The shape of a handle table, what a write to a slot leaves, and the invariant of the table.
use zuzu.Base.{
  get_or-replicate, ℕ, ◌/◌, ◌%◌, ◌<◌, ◌≡◌, refl, sym, ap, ◌∙◌, Bool, true, false, Option, none,
  some, List, arith, ◌==◌, if◌then◌else◌, length, get_or, set, replicate, length-set, get_or-out,
  get_or-set_self, get_or-set_ne, inl, inr, Option-cases,
}
use native.Mathlib.Decide.{ℕ_discrete, dec_lt}
use zuzu.Base.Bits.{test_bit-zero}
use zuzu.Bitmap
use zuzu.Bitmap.{test-put, test-clr, length-put, length-clr}
use zuzu.Bitmap.FirstZero.{Words32}
use zuzu.Handle.Defs.{
  is_free, Entry, zero_entry, HandleTable, slot_of, table_init, table_get, put_entry, block_slots,
  max_slots, gen_mod, max_blocks,
}

-- Every allocated block has all its slots.
pub record IsShaped (t : HandleTable) : Type 0 where
  pub all_blocks : length t.blocks ≡ max_blocks
  pub whole :
      (b : ℕ) (blk : List Entry) → get_or t.blocks b none ≡ some blk → length blk ≡ block_slots
  pub bitmap : length t.slot_bitmap ≡ 32
  pub words : Words32 t.slot_bitmap

module _ (blocks : List (Option (List Entry))) where
  -- A write into block `i / 64`, which is `blk`.
  slot_of-set :
      (i j : ℕ) (blk : List Entry) (e : Entry)
      → i / block_slots < length blocks
      → length blk ≡ block_slots
      → get_or blocks (i / block_slots) none ≡ some blk
      → slot_of (set blocks (i / block_slots) (some (set blk (i % block_slots) e))) j
        ≡ (if i == j then some e else slot_of blocks j)
  unfolding slot_of
  slot_of-set i j blk e inside whole at =
      let new = set blk (i % block_slots) e in
      elim (ℕ_discrete (i / block_slots) (j / block_slots)) [
        | yes same ↦
            let here : get_or (set blocks (i / block_slots) (some new)) (j / block_slots) none
                ≡ some new =
              rw (← same) (get_or-set_self blocks (i / block_slots) (some new) none inside) in
            let before : get_or blocks (j / block_slots) none ≡ some blk = rw (← same) at in
            rw (here, before, slot_of)
              (ground (
                arith,
                same,
                get_or-set_self blk (i % block_slots) e zero_entry,
                get_or-set_ne blk (i % block_slots) (j % block_slots) e zero_entry,
              ))
        | no other ↦
            rw
              (
                get_or-set_ne blocks (i / block_slots) (j / block_slots) (some new) none other,
                slot_of,
              )
              (ground arith)
      ]

  -- A new block of zeros where there was none.
  pub slot_of-new :
      (i j : ℕ)
      → i / block_slots < length blocks
      → slot_of (set blocks (i / block_slots) (some (replicate block_slots zero_entry))) j
        ≡ (if i / block_slots == j / block_slots then some zero_entry else slot_of blocks j)
  unfolding slot_of
  slot_of-new i j inside =
      let new = replicate block_slots zero_entry in
      elim (ℕ_discrete (i / block_slots) (j / block_slots)) [
        | yes same ↦
            let here : get_or (set blocks (i / block_slots) (some new)) (j / block_slots) none
                ≡ some new =
              rw (← same) (get_or-set_self blocks (i / block_slots) (some new) none inside) in
            rw (here, slot_of)
              (ground (arith, same, get_or-replicate 64 (j % block_slots) zero_entry))
        | no other ↦
            rw
              (
                get_or-set_ne blocks (i / block_slots) (j / block_slots) (some new) none other,
                slot_of,
              )
              (ground arith)
      ]

block_of :
    (blocks : List (Option (List Entry))) (i : ℕ) (old : Entry)
    → slot_of blocks i ≡ some old
    → (blk : List Entry) × (get_or blocks (i / block_slots) none ≡ some blk)
unfolding slot_of
block_of blocks i old h = ground arith

module _ (t : HandleTable) (s : IsShaped t) where
  -- What a block that has been written is.
  set_self :
      (a b : ℕ) (blk' new : List Entry)
      → a ≡ b
      → get_or (set t.blocks a (some new)) b none ≡ some blk'
      → blk' ≡ new
  set_self a b blk' new q h = elim (dec_lt b (length t.blocks)) [
    | yes l ↦ ground (
      arith,
      h,
      get_or-set_self t.blocks a (some new) none (rw q l),
      ap (λ k. get_or (set t.blocks a (some new)) k none) q,
    )
    | no l ↦ absurd (
        ground
          (arith, get_or-out (set t.blocks a (some new)) b none, length-set t.blocks a (some new)))
  ]

  -- Writing an entry that is there changes that entry alone.
  pub table_get-put_entry :
      (i j : ℕ) (old e : Entry)
      → table_get t i ≡ some old
      → table_get (put_entry t i e) j ≡ (if i == j then some e else table_get t j)
  unfolding table_get put_entry
  table_get-put_entry i j old e h =
      let inside : i < max_slots = ground arith in
      let (blk, at) = block_of t.blocks i old (ground arith) in
      rw (put_entry, at)
        (ground (
          arith,
          slot_of-set t.blocks i j blk e (omega (arith, s.all_blocks))
              (s.whole (i / block_slots) blk at) at,
        ))

  pub set_whole :
      (a : ℕ) (new : List Entry)
      → length new ≡ block_slots
      → (b : ℕ) (blk : List Entry) → get_or (set t.blocks a (some new)) b none ≡ some blk
      → length blk ≡ block_slots
  set_whole a new fits b blk h = elim (ℕ_discrete a b) [
    | yes q ↦ ap length (set_self a b blk new q h) ∙ fits
    | no q ↦ s.whole b blk (sym (get_or-set_ne t.blocks a b (some new) none q) ∙ h)
  ]

  pub put_entry-IsShaped : (i : ℕ) (e : Entry) → IsShaped (put_entry t i e)
  unfolding put_entry
  put_entry-IsShaped i e = elim (Option-cases (get_or t.blocks (i / block_slots) none)) [
    | inl nothing ↦ rw (nothing, put_entry) s
    | inr (blk, at) ↦
        let new = set blk (i % block_slots) e in
        rw (at, put_entry)
          (record {
            all_blocks = length-set t.blocks (i / block_slots) (some new) ∙ s.all_blocks;
            whole =
                set_whole (i / block_slots) new
                  (length-set blk (i % block_slots) e ∙ s.whole (i / block_slots) blk at);
            bitmap = s.bitmap;
            words = s.words;
          })
  ]

  pub bitmap-put_entry : (i : ℕ) (e : Entry) → (put_entry t i e).slot_bitmap ≡ t.slot_bitmap
  unfolding put_entry
  bitmap-put_entry i e = ground arith

-- The bits of the table.
abbrev pub used : HandleTable → ℕ → Bool
used t i = Bitmap.test 32 t.slot_bitmap i

-- The slots in use are exactly those whose entries are live, and generations fit their field.
pub record IsConsistent (t : HandleTable) : Type 0 where
  pub shaped : IsShaped t
  pub unused :
      (i : ℕ) (e : Entry)
      → i < max_slots
      → used t i ≡ false
      → table_get t i ≡ some e
      → is_free e.type ≡ true
  pub in_use :
      (i : ℕ)
      → i < max_slots
      → used t i ≡ true
      → (e : Entry) × (table_get t i ≡ some e) × (is_free e.type ≡ false)
  pub gens : (i : ℕ) (e : Entry) → table_get t i ≡ some e → e.generation < gen_mod

no_blocks : (i : ℕ) → get_or table_init.blocks i none ≡ none
unfolding table_init
no_blocks i = get_or-replicate 16 i none

no_words : (i : ℕ) → get_or table_init.slot_bitmap i 0 ≡ 0
unfolding table_init
no_words i = get_or-replicate 32 i 0

no_entries : (i : ℕ) → table_get table_init i ≡ none
unfolding table_get
no_entries i = ground (arith, no_blocks (i / block_slots))

no_used : (i : ℕ) → used table_init i ≡ false
unfolding Bitmap.test
no_used i = rw (no_words (i / 32)) (test_bit-zero (i % 32))

-- `HandleTableInit` gives a consistent table with no block and no handle.
pub init-IsConsistent : IsConsistent table_init
init-IsConsistent = record {
  shaped = record {
    all_blocks = unfold table_init in refl;
    whole = λ b blk h. absurd (ground (arith, no_blocks b));
    bitmap = unfold table_init in refl;
    words = λ w. omega (arith, no_words w);
  };
  unused = λ i e h k l. absurd (ground (arith, no_entries i));
  in_use = λ i h k. absurd (ground (arith, no_used i));
  gens = λ i e h. absurd (ground (arith, no_entries i));
}
