-- ===== src/Handle/Write.antt =====
-- Filling a free slot and freeing a slot in use: the two writes by which handles come and go.
use zuzu.Base.{
  ℕ, ◌/◌, ◌%◌, ◌^◌, ◌<◌, ◌≡◌, Bool, true, false, none, some, List, arith, not, ◌==◌, if◌then◌else◌,
  length, get_or, set, length-set, get_or-set_self, get_or-set_ne, get_or-out,
}
use native.Mathlib.Decide.{ℕ_discrete, dec_lt}
use zuzu.Base.Bits.{set_bit, clear_bit, set_bit-lt, clear_bit-le}
use zuzu.Bitmap
use zuzu.Bitmap.{test-put, length-put, find_first_zero}
use zuzu.Bitmap.FirstZero.{Words32}
use zuzu.Handle.Defs.{
  is_free, Entry, HandleTable, table_get, put_entry, current, lookup, handle_index, max_slots,
  gen_mod,
}
use zuzu.Handle.Slots.{
  IsShaped, IsConsistent, used, table_get-put_entry, put_entry-IsShaped, bitmap-put_entry,
}

pub put_word-lt :
    (words : List ℕ) (i w : ℕ) → Words32 words → get_or (Bitmap.put 32 words i) w 0 < 2 ^ 32
unfolding Bitmap.put
put_word-lt words i w small = elim (ℕ_discrete (i / 32) w) [
  | yes q ↦ elim (dec_lt w (length words)) [
    | yes l ↦
        rw (q, get_or-set_self words w (set_bit (get_or words w 0) (i % 32)) 0 l)
          (set_bit-lt 32 (get_or words w 0) (i % 32) (omega arith) (small w))
    | no l ↦
        rw
          (get_or-out (set words (i / 32) (set_bit (get_or words (i / 32) 0) (i % 32))) w 0
            (omega (arith, length-set words (i / 32) (set_bit (get_or words (i / 32) 0) (i % 32)))))
          (omega arith)
  ]
  | no q ↦
      rw (get_or-set_ne words (i / 32) w (set_bit (get_or words (i / 32) 0) (i % 32)) 0 q) (small w)
]

pub clr_word-lt :
    (words : List ℕ) (i w : ℕ) → Words32 words → get_or (Bitmap.clr 32 words i) w 0 < 2 ^ 32
unfolding Bitmap.clr
clr_word-lt words i w small = elim (ℕ_discrete (i / 32) w) [
  | yes q ↦ elim (dec_lt w (length words)) [
    | yes l ↦
        rw (q, get_or-set_self words w (clear_bit (get_or words w 0) (i % 32)) 0 l)
          (omega (arith, clear_bit-le (get_or words w 0) (i % 32), small w))
    | no l ↦
        rw
          (get_or-out (set words (i / 32) (clear_bit (get_or words (i / 32) 0) (i % 32))) w 0 (
            omega
              (arith, length-set words (i / 32) (clear_bit (get_or words (i / 32) 0) (i % 32)))))
          (omega arith)
  ]
  | no q ↦
      rw (get_or-set_ne words (i / 32) w (clear_bit (get_or words (i / 32) 0) (i % 32)) 0 q)
        (small w)
]

-- A slot and its bit, written together.
unfoldable pub write_slot : HandleTable → ℕ → List ℕ → Entry → HandleTable
write_slot t i words e = put_entry (record t { slot_bitmap = words }) i e

module _ (t : HandleTable) (c : IsConsistent t) (i : ℕ) (old e : Entry) (words : List ℕ)
    (bit : Bool) (inside : i < max_slots) (at : table_get t i ≡ some old)
    (gen : e.generation < gen_mod) (live : is_free e.type ≡ not bit) (size : length words ≡ 32)
    (small : Words32 words)
    (bits : (j : ℕ) → Bitmap.test 32 words j ≡ (if i == j then bit else used t j)) where
  base : HandleTable
  base = record t { slot_bitmap = words }

  base-IsShaped : IsShaped base
  unfolding base
  base-IsShaped = record {
    all_blocks = c.shaped.all_blocks;
    whole = c.shaped.whole;
    bitmap = size;
    words = small;
  }

  pub table_get-write_slot :
      (j : ℕ) → table_get (write_slot t i words e) j ≡ (if i == j then some e else table_get t j)
  unfolding write_slot base table_get
  table_get-write_slot j = table_get-put_entry base base-IsShaped i j old e at

  pub used-write_slot :
      (j : ℕ) → used (write_slot t i words e) j ≡ (if i == j then bit else used t j)
  unfolding write_slot base
  used-write_slot j = rw (bitmap-put_entry base base-IsShaped i e) (bits j)

  in_use :
      (j : ℕ)
      → j < max_slots
      → used (write_slot t i words e) j ≡ true
      → (x : Entry) × (table_get (write_slot t i words e) j ≡ some x) × (is_free x.type ≡ false)
  in_use j h k = elim (ℕ_discrete i j) [
    | yes q ↦ (e, ground (arith, table_get-write_slot j), ground (arith, used-write_slot j, live))
    | no q ↦
        let (x, before, busy) = c.in_use j h (ground (arith, used-write_slot j)) in
        (x, ground (arith, table_get-write_slot j), busy)
  ]

  pub write_slot-IsConsistent : IsConsistent (write_slot t i words e)
  write_slot-IsConsistent = record {
    shaped = unfold write_slot base in put_entry-IsShaped base base-IsShaped i e;
    unused = λ j x h k l. ground (arith, table_get-write_slot j, used-write_slot j, c.unused j x h);
    in_use = in_use;
    gens = λ j x h. ground (arith, table_get-write_slot j, c.gens j x);
  }

  -- What each handle value names afterwards.
  pub lookup-write_slot :
      (h : ℕ)
      → lookup (write_slot t i words e) h
        ≡ (if i == handle_index h then (if current h e then some e else none) else lookup t h)
  unfolding lookup
  lookup-write_slot h = elim (ℕ_discrete i (handle_index h)) [
    | yes q ↦
        let new : table_get (write_slot t i words e) (handle_index h) ≡ some e =
          ground (arith, table_get-write_slot (handle_index h)) in
        rw (new, lookup) (ground arith)
    | no q ↦
        let same : table_get (write_slot t i words e) (handle_index h)
            ≡ table_get t (handle_index h) =
          ground (arith, table_get-write_slot (handle_index h)) in
        rw (same, lookup) (ground arith)
  ]
