-- ===== src/Handle/Release.antt =====
-- `HandleRelease`: the slot's handle is gone, stays gone when the slot is used again, and all other
-- handles are as before.
use zuzu.Base.{
  ℕ, zero, suc, ◌+◌, ◌%◌, ◌≤◌, ◌<◌, ◌≡◌, ◌≢◌, refl, sym, ◌∙◌, Bool, true, false, Option, none, some,
  List, [], ◌∷◌, arith, not, ◌==◌, ◌&&◌, if◌then◌else◌, inl, inr, Bool-cases, Option-cases, length,
}
use mathlib.Core.Path.{subst}
use native.Mathlib.Decide.{ℕ_discrete}
use zuzu.Bitmap
use zuzu.Bitmap.{test-clr, length-clr}
use zuzu.Handle.Defs.{
  is_free, is_mem, mem, Entry, zero_entry, HandleTable, table_get, current, lookup, Refs, Copied,
  done, copy_into, pack, handle_index, max_slots, gen_mod, entry_free, release, holds_mem,
  holds_mem_from, Call, mem_unmap_and_drop, irq_release,
}
use zuzu.Handle.Slots.{IsConsistent, used}
use zuzu.Handle.Write.{
  write_slot, write_slot-IsConsistent, lookup-write_slot, table_get-write_slot, clr_word-lt,
}
use zuzu.Handle.Copy.{Outcome, not_live, no_slot, made, copy_into-Outcome, handle_fields}

-- What the table is after the release of slot `i`, which held `e`.
pub record Released (t : HandleTable) (i : ℕ) (e : Entry) (t' : HandleTable) : Type 0 where
  pub gone : (h : ℕ) → lookup t' h ≡ (if i == handle_index h then none else lookup t h)
  pub consistent : IsConsistent t'
  pub next_gen :
      table_get t' i ≡ some (record zero_entry { generation = (e.generation + 1) % gen_mod })

module _ (t : HandleTable) (c : IsConsistent t) (i : ℕ) (e : Entry) (inside : i < max_slots)
    (at : table_get t i ≡ some e) where
  blank : Entry
  blank = record zero_entry { generation = (e.generation + 1) % gen_mod }

  words : List ℕ
  words = Bitmap.clr 32 t.slot_bitmap i

  size : length words ≡ 32
  unfolding words
  size = length-clr 32 t.slot_bitmap i ∙ c.shaped.bitmap

  bits : (j : ℕ) → Bitmap.test 32 words j ≡ (if i == j then false else used t j)
  unfolding words
  bits j = test-clr 32 t.slot_bitmap i j (omega (arith, c.shaped.bitmap))

  not_named : (h : ℕ) → (if current h blank then some blank else none) ≡ none
  unfolding current blank
  not_named h = refl

  entry_free-Released : Released t i e (entry_free t i e)
  unfolding entry_free write_slot blank words
  entry_free-Released =
      let small = λ (w : ℕ). clr_word-lt t.slot_bitmap i w c.shaped.words in
      record {
        gone = λ h. ground (
          arith,
          not_named h,
          lookup-write_slot t c i e blank words false inside at (omega arith) refl size small bits
              h,
        );
        consistent =
            write_slot-IsConsistent t c i e blank words false inside at (omega arith) refl size
              small bits;
        next_gen = ground (
          arith,
          table_get-write_slot t c i e blank words false inside at (omega arith) refl size small
              bits i,
        );
      }

  -- On a consistent table `HandleRelease` of a live entry frees its slot, with the next generation in
  -- it: no handle value names the slot any more, every
  -- other value looks up as before, and the table is consistent.
  pub release-Released :
      (device_irq : ℕ → Option ℕ)
      → is_free e.type ≡ false
      → Released t i e (release device_irq t i e).0
  unfolding release
  release-Released device_irq live = rw live entry_free-Released

gone_old :
    (t : HandleTable) {t1 : HandleTable} (i : ℕ) (e : Entry)
    → Released t i e t1
    → i < max_slots
    → e.generation < gen_mod
    → lookup t1 (pack i e.generation) ≡ none
gone_old t i e rel inside gen =
    ground (arith, rel.gone (pack i e.generation), handle_fields i e.generation inside gen)

-- A copy that succeeds after the release of a slot does not give the old handle back.
stale_after :
    (t : HandleTable) {memory : Bool} {t1 : HandleTable} {src : Entry} {perms marker : ℕ}
    {refs : Refs} (i : ℕ) (e : Entry)
    → Released t i e t1
    → i < max_slots
    → e.generation < gen_mod
    → (r : Copied) → Outcome memory t1 src perms marker refs r
    → {h : ℕ} {t2 : HandleTable} {refs' : Refs} → r ≡ done h t2 refs'
    → lookup t2 (pack i e.generation) ≡ none
stale_after t i e rel inside gen r (not_live d) q = absurd (cc)
stale_after t i e rel inside gen r (no_slot d) q = absurd (cc)
stale_after t i e rel inside gen r
      (made {slot} {gen = g} {t'} below fits free_slot kept names c counts) {h} {t2} q =
    let old = pack i e.generation in
    let same : t' ≡ t2 = ground arith in
    let next : Entry = record zero_entry { generation = (e.generation + 1) % gen_mod } in
    let other : (old == pack slot g) ≡ false = elim (ℕ_discrete slot i) [
      | yes here ↦ ground (
        arith,
        kept next (rw here rel.next_gen),
        handle_fields i e.generation inside gen,
        handle_fields slot g below fits,
      )
      | no there ↦
          ground (arith, handle_fields i e.generation inside gen, handle_fields slot g below fits)
    ] in
    rw (← same) (names old ∙ rw other (gone_old t i e rel inside gen))

-- `HandleTableHoldsMem` finds a handle to the object in a slot other than `except`.
module _ (t : HandleTable) (o except : ℕ) where
  abbrev pub HoldsAt : ℕ → Type 0
  HoldsAt j =
      (j ≢ except)
      × ((e : Entry) × (table_get t j ≡ some e) × ((is_mem e.type && e.object == o) ≡ true))

  -- What the scan of the slots in `[lo, hi)` says.
  data Scan (lo hi : ℕ) : Bool → Type 0 where
    holds : (j : ℕ) → lo ≤ j → j < hi → HoldsAt j → Scan lo hi true
    clear : ((j : ℕ) → lo ≤ j → j < hi → ¬ HoldsAt j) → Scan lo hi false

  later : {lo hi : ℕ} {b : Bool} → ¬ HoldsAt lo → Scan (suc lo) hi b → Scan lo hi b
  later nope (holds j l h w) = holds j (omega arith) h w
  later {lo} nope (clear all) = clear λ j l h w. elim (ℕ_discrete j lo) [
    | yes q ↦ nope (subst HoldsAt q w)
    | no q ↦ all j (omega arith) h w
  ]

  holds_mem_from-Scan : (n i : ℕ) → Scan i (i + n) (holds_mem_from t o except n i)
  unfolding holds_mem_from
  holds_mem_from-Scan zero i = clear λ j l h w. absurd (omega arith)
  holds_mem_from-Scan (suc n) i =
      let rest : Scan (suc i) (i + suc n) (holds_mem_from t o except n (i + 1)) =
        subst (λ k. Scan (suc i) k (holds_mem_from t o except n (i + 1))) (omega arith)
          (subst (λ k. Scan k (i + 1 + n) (holds_mem_from t o except n (i + 1))) (omega arith)
            (holds_mem_from-Scan n (i + 1))) in
      elim (Option-cases (table_get t i)) [
        | inl nothing ↦ rw (nothing, holds_mem_from) (later (λ w. absurd (ground arith)) rest)
        | inr (e, at) ↦
            rw (at, holds_mem_from)
              (elim (Bool-cases (not (i == except) && (is_mem e.type && e.object == o))) [
                | inl hit ↦
                    rw hit
                      (holds i (omega arith) (omega arith) (ground arith, (e, at, ground arith)))
                | inr miss ↦ rw miss (later (λ w. absurd (ground arith)) rest)
              ])
      ]

-- What `HandleRelease` calls for a device: the interrupt is released exactly if no other slot of the
-- table holds a handle to the device.
pub data DeviceCalls (t : HandleTable) (i : ℕ) (e : Entry) (irq : ℕ) : List Call → Type 0 where
  last :
      ((j : ℕ) → j < max_slots → ¬ HoldsAt t e.object i j)
      → DeviceCalls t i e irq (mem_unmap_and_drop e.mapped_va e.object ∷ irq_release irq ∷ [])
  shared :
      (j : ℕ)
      → j < max_slots
      → HoldsAt t e.object i j
      → DeviceCalls t i e irq (mem_unmap_and_drop e.mapped_va e.object ∷ [])

module _ (t : HandleTable) (i : ℕ) (e : Entry) (irq : ℕ) where
  irq_tail :
      (b : Bool)
      → Scan t e.object i 0 1024 b
      → DeviceCalls t i e irq
          (mem_unmap_and_drop e.mapped_va e.object ∷ (if b then [] else irq_release irq ∷ []))
  irq_tail true (holds j l h w) = shared j h w
  irq_tail false (clear all) = last λ j h w. all j (omega arith) h w

  device_calls :
      (device_irq : ℕ → Option ℕ)
      → e.type ≡ mem
      → device_irq e.object ≡ some irq
      → (release device_irq t i e).1
        ≡ mem_unmap_and_drop e.mapped_va e.object
          ∷ (if holds_mem t e.object i then [] else irq_release irq ∷ [])
  unfolding release
  device_calls device_irq is device = ground arith

  -- `HandleRelease` of a handle to a device unmaps the device and drops the reference, and releases
  -- the device's interrupt exactly if no other slot of the table holds a handle to the same device.
  pub release-DeviceCalls :
      (device_irq : ℕ → Option ℕ)
      → e.type ≡ mem
      → device_irq e.object ≡ some irq
      → DeviceCalls t i e irq (release device_irq t i e).1
  unfolding release holds_mem
  release-DeviceCalls device_irq is device =
      subst (DeviceCalls t i e irq) (sym (device_calls device_irq is device))
        (irq_tail (holds_mem t e.object i) (holds_mem_from-Scan t e.object i 1024 0))

-- On a consistent table a released handle stays dead when its slot is used again: after the release of
-- a live handle, and a `HandleCopyInto` into the table that the release leaves, if it succeeds, the old
-- value still looks up to nothing.
pub release-copy_into :
    (device_irq : ℕ → Option ℕ) (memory : Bool) (t : HandleTable) (i : ℕ) (e src : Entry)
    (perms marker : ℕ) (refs : Refs) {h : ℕ} {t2 : HandleTable} {refs' : Refs}
    → IsConsistent t
    → i < max_slots
    → table_get t i ≡ some e
    → is_free e.type ≡ false
    → copy_into memory (release device_irq t i e).0 src perms marker refs ≡ done h t2 refs'
    → lookup t2 (pack i e.generation) ≡ none
release-copy_into device_irq memory t i e src perms marker refs c inside at live q =
    let rel = release-Released t c i e inside at device_irq live in
    stale_after t i e rel inside (c.gens i e at) _
      (copy_into-Outcome memory (release device_irq t i e).0 rel.consistent src perms marker refs) q
