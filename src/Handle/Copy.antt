-- ===== src/Handle/Copy.antt =====
-- `HandleCopyInto`: a new handle takes a free slot, names the object that it is given, and leaves
-- every other handle as it was.
use zuzu.Base.{
  ℕ, ◌+◌, ◌%◌, ◌^◌, ◌<◌, ◌≡◌, refl, ◌∙◌, Bool, true, false, Option, none, some, arith, not, ◌==◌,
  if◌then◌else◌, inl, inr, Bool-cases, Option-cases, ◌⊎◌, length,
}
use zuzu.Bitmap
use zuzu.Bitmap.{test-put, length-put, find_first_zero}
use zuzu.Bitmap.FirstZero.{Found, full, clear, find_first_zero-Found}
use zuzu.Handle.Defs.{
  is_free, Entry, HandleTable, table_get, block_ensure, find_free, current, lookup, Refs,
  ref_object, bad_type, no_mem, copied, fill_found, slot_with_block, Copied, failed, done,
  fill_slot, copy_into, pack, handle_index, handle_gen, max_slots, gen_mod,
}
use zuzu.Handle.Slots.{IsConsistent, used}
use zuzu.Handle.Block.{Ensured, block_ensure-Ensured, Ensured-IsConsistent, lookup-Ensured}
use zuzu.Handle.Write.{write_slot, write_slot-IsConsistent, lookup-write_slot, put_word-lt}

-- For an index and a generation in their ranges a handle value fits in 31 bits, so it is never negative, and gives back its slot and generation.
pub handle_fields :
    (index gen : ℕ)
    → index < max_slots
    → gen < gen_mod
    → (pack index gen < 2 ^ 31)
      × (handle_index (pack index gen) ≡ index)
      × (handle_gen (pack index gen) ≡ gen)
unfolding pack handle_index handle_gen
handle_fields index gen h k = omega arith

-- A value with the slot and the generation of a handle is that handle.
pub pack_of_fields :
    (h index gen : ℕ)
    → index < max_slots
    → gen < gen_mod
    → handle_index h ≡ index
    → handle_gen h ≡ gen
    → h ≡ pack index gen
unfolding pack handle_index handle_gen
pack_of_fields h index gen a b p q = omega arith

-- What `HandleCopyInto` does, by what it is given.
pub data Outcome (memory : Bool) (t : HandleTable) (src : Entry) (perms marker : ℕ) (refs : Refs)
    : Copied → Type 0 where
  not_live : is_free src.type ≡ true → Outcome memory t src perms marker refs (failed bad_type t)
  no_slot :
      ((i : ℕ) → i < max_slots → used t i ≡ true) ⊎ (memory ≡ false)
      → Outcome memory t src perms marker refs (failed no_mem t)
  made :
      {slot gen : ℕ} {t' : HandleTable} {refs' : Refs}
      → slot < max_slots
      → gen < gen_mod
      → ((h : ℕ) → handle_index h ≡ slot → lookup t h ≡ none)
      → ((e : Entry) → table_get t slot ≡ some e → e.generation ≡ gen)
      → ((h : ℕ)
          → lookup t' h
            ≡ (if h == pack slot gen then some (copied src perms marker gen) else lookup t h))
      → IsConsistent t'
      → ((o : ℕ) → refs' o ≡ (if o == src.object then (refs o + 1) % 2 ^ 32 else refs o))
      → Outcome memory t src perms marker refs (done (pack slot gen) t' refs')

module _ (t : HandleTable) (c : IsConsistent t) where
  -- No handle names an unused slot.
  unused_slot :
      (slot : ℕ)
      → slot < max_slots
      → used t slot ≡ false
      → (h : ℕ) → handle_index h ≡ slot
      → lookup t h ≡ none
  unfolding lookup current
  unused_slot slot inside unused h q = elim (Option-cases (table_get t (handle_index h))) [
    | inl nothing ↦ rw (nothing, lookup)
    | inr (e, at) ↦ rw (at, lookup) (ground (arith, c.unused slot e inside unused (rw (← q) at)))
  ]

no_block_memory :
    (memory : Bool) (t : HandleTable) (slot : ℕ)
    → block_ensure memory t slot ≡ none
    → memory ≡ false
unfolding block_ensure
no_block_memory memory t slot h = ground arith

copied_type : (src : Entry) (perms marker gen : ℕ) → (copied src perms marker gen).type ≡ src.type
unfolding copied
copied_type src perms marker gen = refl

copied_gen : (src : Entry) (perms marker gen : ℕ) → (copied src perms marker gen).generation ≡ gen
unfolding copied
copied_gen src perms marker gen = refl

-- The handle value of a new entry is the one value that names it.
names :
    (h slot : ℕ) (new : Entry) (gen : ℕ)
    → slot < max_slots
    → gen < gen_mod
    → is_free new.type ≡ not true
    → new.generation ≡ gen
    → (after before : Option Entry) → after ≡ before
    → (handle_index h ≡ slot → before ≡ none)
    → (if slot == handle_index h then (if current h new then some new else none) else after)
      ≡ (if h == pack slot gen then some new else before)
unfolding current
names h slot new gen a b live same after before e unnamed =
    ground (arith, handle_fields slot gen a b, pack_of_fields h slot gen a b)

counted :
    (refs : Refs) (p o : ℕ)
    → ref_object refs p o ≡ (if o == p then (refs o + 1) % 2 ^ 32 else refs o)
unfolding ref_object
counted refs p o = refl

module _ (t : HandleTable) (c : IsConsistent t) (src : Entry) (live : is_free src.type ≡ false)
    (perms marker : ℕ) (refs : Refs) where
  filled :
      (memory : Bool) (slot : ℕ) (t' : HandleTable)
      → slot < max_slots
      → used t slot ≡ false
      → Ensured t slot t'
      → Outcome memory t src perms marker refs (fill_slot t' slot src perms marker refs)
  unfolding fill_slot write_slot
  filled memory slot t' inside unused en =
      let (dst, at) = en.present in
      let c' = Ensured-IsConsistent t t' slot c en in
      let gen = c'.gens slot dst at in
      let new = copied src perms marker dst.generation in
      let words = Bitmap.put 32 t'.slot_bitmap slot in
      let is_new : is_free new.type ≡ not true =
        rw (copied_type src perms marker dst.generation) live in
      let size : length words ≡ 32 = length-put 32 t'.slot_bitmap slot ∙ c'.shaped.bitmap in
      let small = λ (w : ℕ). put_word-lt t'.slot_bitmap slot w c'.shaped.words in
      let bits = λ (j : ℕ). test-put 32 t'.slot_bitmap slot j (omega (arith, c'.shaped.bitmap)) in
      let fits = rw (← copied_gen src perms marker dst.generation) at gen in
      rw (at, fill_slot)
        (made inside gen (unused_slot t c slot inside unused)
          (λ e there. ground (arith, at, en.kept slot e there))
          (λ h.
            lookup-write_slot t' c' slot dst new words true inside at fits is_new size small bits h
            ∙ names h slot new dst.generation inside gen is_new
                (copied_gen src perms marker dst.generation) (lookup t' h) (lookup t h)
                (lookup-Ensured t t' slot c en h) (unused_slot t c slot inside unused h))
          (write_slot-IsConsistent t' c' slot dst new words true inside at fits is_new size small
            bits)
          (counted refs src.object))

  take_slot :
      (memory : Bool) (o : Option ℕ)
      → Found t.slot_bitmap 0 max_slots o
      → Outcome memory t src perms marker refs
          (fill_found t src perms marker refs (slot_with_block memory t o))
  unfolding fill_found slot_with_block
  take_slot memory none (full all) = no_slot (inl (λ i h. all i (omega arith) h))
  take_slot memory (some slot) (clear _ _ inside unused _) =
      elim (Option-cases (block_ensure memory t slot)) [
        | inl nothing ↦
            rw (nothing, slot_with_block) (no_slot (inr (no_block_memory memory t slot nothing)))
        | inr (t', e) ↦
            rw (e, slot_with_block)
              (filled memory slot t' inside unused
                (block_ensure-Ensured t c.shaped slot inside memory t' e))
      ]

-- `HandleCopyInto`, on a consistent table, refuses an entry that is not live; fails only if every slot
-- is in use or memory ran out; and otherwise returns a handle in a slot that no handle named, which
-- looks up to the object under the rights and the marker given, while every other handle value looks
-- up as before, the reference count of the object, a word of 32 bits, is one more modulo 2^32, and the
-- other counts and the consistency of the table are kept.
pub copy_into-Outcome :
    (memory : Bool) (t : HandleTable)
    → IsConsistent t
    → (src : Entry) (perms marker : ℕ) (refs : Refs)
    → Outcome memory t src perms marker refs (copy_into memory t src perms marker refs)
unfolding copy_into find_free
copy_into-Outcome memory t c src perms marker refs = elim (Bool-cases (is_free src.type)) [
  | inl dead ↦ rw dead (not_live dead)
  | inr live ↦ rw live (
      take_slot t c src live perms marker refs memory (find_first_zero t.slot_bitmap max_slots)
        (find_first_zero-Found t.slot_bitmap c.shaped.words max_slots (omega arith)))
]
