-- ===== src/Handle/Tests.antt =====
-- A table with one handle, and the theorems of `Handle` at it.
use zuzu.Base.{
  ℕ, ◌≡◌, refl, Bool, true, false, Option, none, some, List, [], ◌∷◌, arith, replicate, set, ◌<◌,
  ◌^◌,
}
use zuzu.Bitmap.FirstZero.{Found, find_first_zero-Found, Words32}
use zuzu.Bitmap.{find_first_zero}
use zuzu.Base.Bits.{ctz}
use zuzu.Bitmap
use zuzu.Handle.Defs.{
  port, mem, Entry, zero_entry, HandleTable, table_init, Refs, ref_object, Copied, done, failed,
  copy_into, copied, release, lookup, pack, table_get, block_ensure, fill_slot, put_entry,
  find_free, mem_unmap_and_drop, irq_release,
}
use zuzu.Handle.Slots.{IsConsistent, init-IsConsistent}
use zuzu.Handle.Copy.{Outcome, not_live, no_slot, made, copy_into-Outcome}
use zuzu.Handle.Release.{Released, release-Released, release-copy_into}

abbrev device : Entry
device = record zero_entry { type = mem; perms = 7; object = 5 }

abbrev refs_one : Refs
refs_one _ = 1

abbrev first_entry : Entry
first_entry = record device { marker = 9 }

abbrev one_handle : HandleTable
one_handle = record {
  blocks = some (set (replicate 64 zero_entry) 0 first_entry) ∷ replicate 15 none;
  slot_bitmap = 1 ∷ replicate 31 0;
}

first_copy :
    copy_into true table_init device 7 9 refs_one ≡ done 0 one_handle (ref_object refs_one 5)
unfolding copy_into find_free find_first_zero ctz fill_slot table_get table_init put_entry copied
    pack Bitmap.put zuzu.Base.Bits.set_bit
first_copy = refl

done-IsConsistent :
    {memory : Bool} {t : HandleTable} {src : Entry} {perms marker : ℕ} {refs refs' : Refs} {h : ℕ}
    {t' : HandleTable} (r : Copied)
    → Outcome memory t src perms marker refs r
    → r ≡ done h t' refs'
    → IsConsistent t'
done-IsConsistent r (not_live d) q = absurd (cc)
done-IsConsistent r (no_slot d) q = absurd (cc)
done-IsConsistent {t'} r (made {t' = t1} below fits free_slot kept names c counts) q =
    let same : t1 ≡ t' = ground arith in rw (← same) c

one_handle-IsConsistent : IsConsistent one_handle
one_handle-IsConsistent =
    done-IsConsistent _ (copy_into-Outcome true table_init init-IsConsistent device 7 9 refs_one)
      first_copy

find_first_zero-Found_example :
    Found (0xffff_ffff ∷ 5 ∷ []) 0 40 (find_first_zero (0xffff_ffff ∷ 5 ∷ []) 40)
find_first_zero-Found_example = find_first_zero-Found (0xffff_ffff ∷ 5 ∷ []) small 40 (omega arith)
  where
    small : Words32 (0xffff_ffff ∷ 5 ∷ [])
    small zuzu.Base.zero = omega arith
    small (zuzu.Base.suc zuzu.Base.zero) = omega arith
    small (zuzu.Base.suc (zuzu.Base.suc w)) = omega arith

copy_into-Outcome_example :
    Outcome true one_handle device 3 4 refs_one (copy_into true one_handle device 3 4 refs_one)
copy_into-Outcome_example =
    copy_into-Outcome true one_handle one_handle-IsConsistent device 3 4 refs_one

first_at : table_get one_handle 0 ≡ some first_entry
unfolding table_get
first_at = refl

release-Released_example :
    Released one_handle 0 first_entry (release (λ o. some 33) one_handle 0 first_entry).0
release-Released_example =
    release-Released one_handle one_handle-IsConsistent 0 first_entry (omega arith) first_at
      (λ o. some 33) refl

-- The slot's next handle has generation 1.
second_copy :
    (h : ℕ) × (t2 : HandleTable) × (refs' : Refs) × (copy_into true
        (release (λ o. some 33) one_handle 0 first_entry).0
        device
        7
        9
        refs_one
      ≡ done h t2 refs')
    × (h ≡ 1024)
unfolding copy_into find_free find_first_zero ctz fill_slot table_get put_entry copied pack
    Bitmap.put Bitmap.clr release zuzu.Base.Bits.set_bit zuzu.Base.Bits.clear_bit
    zuzu.Handle.Defs.entry_free
second_copy = (1024, _, _, refl, refl)

release-copy_into_example : lookup second_copy.1 (pack 0 0) ≡ none
release-copy_into_example =
    release-copy_into (λ o. some 33) true one_handle 0 first_entry device 7 9 refs_one
      one_handle-IsConsistent (omega arith) first_at refl second_copy.3
