-- ===== src/Handle/Defs.antt =====
-- Handle values, entries and tables, and the operations of kernel/space/handle.h and handle.c.
use zuzu.Base.{
  ℕ, zero, suc, ◌+◌, ◌*◌, ◌/◌, ◌%◌, ◌^◌, Bool, true, false, Option, none, some, List, [], ◌∷◌, not,
  leb, ◌==◌, ◌&&◌, if◌then◌else◌, get_or, set, replicate,
}
use zuzu.Bitmap
use zuzu.Bitmap.{find_first_zero}

-- `HandleType`; `HANDLE_TYPE_COUNT` is no type.
pub data HandleType : Type 0 where
  free port mem event task space : HandleType

abbrev pub is_free : HandleType → Bool
is_free free = true
is_free _ = false

abbrev pub is_mem : HandleType → Bool
is_mem mem = true
is_mem _ = false

-- `HandleTableEntry`. `object` is the address that the union holds, 0 for NULL.
pub record Entry : Type 0 where
  pub type : HandleType
  pub perms : ℕ
  pub mapped_va : ℕ
  pub object : ℕ
  pub marker : ℕ
  pub generation : ℕ

-- An entry of all zeros, as `KZAlloc` and `memset` leave it.
abbrev pub zero_entry : Entry
zero_entry = record {
  type = free;
  perms = 0;
  mapped_va = 0;
  object = 0;
  marker = 0;
  generation = 0;
}

abbrev pub block_slots : ℕ
block_slots = 64

abbrev pub max_blocks : ℕ
max_blocks = 16

abbrev pub max_slots : ℕ
max_slots = 1024

abbrev pub index_mod : ℕ
index_mod = 1024

abbrev pub gen_mod : ℕ
gen_mod = 2 ^ 21

-- `HANDLE_PACK`, `HANDLE_INDEX` and `HANDLE_GEN`; the two fields share no bit, so `|` is a sum.
unfoldable pub pack : ℕ → ℕ → ℕ
pack index gen = gen * index_mod % 2 ^ 32 + index % index_mod

unfoldable pub handle_index : ℕ → ℕ
handle_index h = h % index_mod

unfoldable pub handle_gen : ℕ → ℕ
handle_gen h = h / index_mod

-- `HandleTable`: the blocks, `none` for one that is not allocated, and a bit for each slot in use.
pub record HandleTable : Type 0 where
  pub blocks : List (Option (List Entry))
  pub slot_bitmap : List ℕ

-- `HandleTableInit`.
unfoldable pub table_init : HandleTable
table_init = record { blocks = replicate max_blocks none; slot_bitmap = replicate 32 0 }

-- `(*blocks[i / HANDLE_BLOCK_SLOTS])[i % HANDLE_BLOCK_SLOTS]`, `none` for a NULL block.
unfoldable pub slot_of : List (Option (List Entry)) → ℕ → Option Entry
slot_of blocks i = elim (get_or blocks (i / block_slots) none) [
  | none ↦ none
  | some blk ↦ some (get_or blk (i % block_slots) zero_entry)
]

-- `HandleTableGet`: `none` is NULL. A negative index is a large unsigned one.
unfoldable pub table_get : HandleTable → ℕ → Option Entry
unfolding slot_of
table_get t i = if leb max_slots i then none else slot_of t.blocks i

-- A write through the pointer that `table_get` returns.
unfoldable pub put_entry : HandleTable → ℕ → Entry → HandleTable
put_entry t i e = elim (get_or t.blocks (i / block_slots) none) [
  | none ↦ t
  | some blk ↦ record t {
    blocks = set t.blocks (i / block_slots) (some (set blk (i % block_slots) e));
  }
]

-- `HandleBlockEnsure`: the table after it; `none` is the result false. `memory` says whether
-- `KZAlloc` succeeds.
unfoldable pub block_ensure : Bool → HandleTable → ℕ → Option HandleTable
block_ensure memory t i = elim (get_or t.blocks (i / block_slots) none) [
  | some blk ↦ some t
  | none ↦
      if memory
      then some (record t {
        blocks = set t.blocks (i / block_slots) (some (replicate block_slots zero_entry));
      })
      else none
]

-- The slot that the bitmap search found, once its block is allocated.
unfoldable pub slot_with_block : Bool → HandleTable → Option ℕ → Option (ℕ × HandleTable)
slot_with_block memory t none = none
slot_with_block memory t (some slot) = elim (block_ensure memory t slot) [
  | none ↦ none
  | some t' ↦ some (slot, t')
]

-- `HandleTableFindFree`: the slot, and the table with its block allocated; `none` is -1.
unfoldable pub find_free : Bool → HandleTable → Option (ℕ × HandleTable)
unfolding slot_with_block block_ensure
find_free memory t = slot_with_block memory t (find_first_zero t.slot_bitmap max_slots)

-- Does the handle value name this entry?
unfoldable pub current : ℕ → Entry → Bool
unfolding handle_gen
current h e = not (is_free e.type) && e.generation == handle_gen h

-- `HandleTableLookup`.
unfoldable pub lookup : HandleTable → ℕ → Option Entry
unfolding table_get handle_index current
lookup t h = elim (table_get t (handle_index h)) [
  | none ↦ none
  | some e ↦ if current h e then some e else none
]

-- `HandleEntryClaim`.
unfoldable pub entry_claim : HandleTable → ℕ → HandleTable
entry_claim t i = record t { slot_bitmap = Bitmap.put 32 t.slot_bitmap i }

-- `HandleEntryFree`, on the entry in slot `i`.
unfoldable pub entry_free : HandleTable → ℕ → Entry → HandleTable
unfolding put_entry
entry_free t i e =
    put_entry (record t { slot_bitmap = Bitmap.clr 32 t.slot_bitmap i }) i
      (record zero_entry { generation = (e.generation + 1) % gen_mod })

-- The reference counts of the objects, by address, words of 32 bits.
abbrev pub Refs : Type 0
Refs = ℕ → ℕ

unfoldable pub ref_object : Refs → ℕ → Refs
ref_object refs o p = if p == o then (refs p + 1) % 2 ^ 32 else refs p

pub data Err : Type 0 where
  bad_type no_mem no_ent : Err

-- The entry that a copy writes: the object of `src`, under the rights and the marker given.
unfoldable pub copied : Entry → ℕ → ℕ → ℕ → Entry
copied src perms marker generation = record {
  type = src.type;
  perms = perms;
  mapped_va = 0;
  object = src.object;
  marker = marker;
  generation = generation;
}

pub data Copied : Type 0 where
  failed : Err → HandleTable → Copied
  done : ℕ → HandleTable → Refs → Copied

-- The part of `HandleCopyInto` after a slot is found: claim it, fill it, take the reference.
unfoldable pub fill_slot : HandleTable → ℕ → Entry → ℕ → ℕ → Refs → Copied
unfolding entry_claim
fill_slot t slot src perms marker refs = elim (table_get t slot) [
  | none ↦ failed no_ent t
  | some dst ↦
      done (pack slot dst.generation)
        (put_entry (entry_claim t slot) slot (copied src perms marker dst.generation))
        (ref_object refs src.object)
]

-- What `HandleCopyInto` does with the result of the search, given a live entry.
unfoldable pub fill_found : HandleTable → Entry → ℕ → ℕ → Refs → Option (ℕ × HandleTable) → Copied
fill_found t src perms marker refs none = failed no_mem t
fill_found t src perms marker refs (some (slot, t')) = fill_slot t' slot src perms marker refs

-- `HandleCopyInto`. The switch takes one reference on the object, whatever its type.
unfoldable pub copy_into : Bool → HandleTable → Entry → ℕ → ℕ → Refs → Copied
unfolding fill_found
copy_into memory t src perms marker refs =
    if is_free src.type
    then failed bad_type t
    else fill_found t src perms marker refs (find_free memory t)

-- What a release calls outside the table.
pub data Call : Type 0 where
  port_unref event_unref task_unref space_unref : ℕ → Call
  mem_unmap_and_drop : ℕ → ℕ → Call
  irq_release : ℕ → Call

-- `HandleTableHoldsMem`, over the slots from `i` on; `n` are left.
unfoldable pub holds_mem_from : HandleTable → ℕ → ℕ → ℕ → ℕ → Bool
unfolding table_get
holds_mem_from t o except zero i = false
holds_mem_from t o except (suc n) i =
    let rest = holds_mem_from t o except n (i + 1) in
    elim (table_get t i) [
      | none ↦ rest
      | some e ↦ if not (i == except) && (is_mem e.type && e.object == o) then true else rest
    ]

unfoldable pub holds_mem : HandleTable → ℕ → ℕ → Bool
unfolding holds_mem_from
holds_mem t o except = holds_mem_from t o except max_slots 0

-- The calls of `HandleRelease` on the entry `e` of slot `i`. `device_irq o` is the interrupt of the
-- memory object at `o`, if it is a device.
unfoldable pub release_calls : (ℕ → Option ℕ) → HandleTable → ℕ → Entry → HandleType → List Call
release_calls device_irq t i e port = port_unref e.object ∷ []
release_calls device_irq t i e event = event_unref e.object ∷ []
release_calls device_irq t i e mem =
    mem_unmap_and_drop e.mapped_va e.object ∷ (elim (device_irq e.object) [
      | none ↦ []
      | some irq ↦ if holds_mem t e.object i then [] else irq_release irq ∷ []
    ])
release_calls device_irq t i e task = task_unref e.object ∷ []
release_calls device_irq t i e space = space_unref e.object ∷ []
release_calls device_irq t i e free = []

-- `HandleRelease` of slot `i`, which holds the entry `e`.
unfoldable pub release : (ℕ → Option ℕ) → HandleTable → ℕ → Entry → HandleTable × List Call
unfolding release_calls entry_free
release device_irq t i e =
    if is_free e.type then (t, []) else (entry_free t i e, release_calls device_irq t i e e.type)
