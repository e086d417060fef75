-- ===== src/Ipc/Calls/Grant.antt =====
-- The handle that travels with a message: ValidateCallPort, ValidateGrantHandle, AllocateGrantSlot
-- and GrantHandleAcross, on the handle tables of the two spaces.
use zuzu.Base.{ℕ, Bool, true, false, not, Option, none, some, ◌==◌, if◌then◌else◌}
use zuzu.Base.Bits.{test_bit}
use zuzu.Sched.Defs.{update}
use zuzu.Handle.Defs.{
  HandleType, Entry, lookup, copy_into, Copied, failed, done, Err, bad_type, no_mem, no_ent,
}
use zuzu.Ipc.Calls.Defs.{
  Kernel, Result, ok, fail, minus, err_noperm, err_noent, err_nomem, err_badtype, err_dead,
  err_badhandle,
}

abbrev pub may_wait : Entry → Bool
may_wait e = test_bit e.perms 0

abbrev pub may_send : Entry → Bool
may_send e = test_bit e.perms 1

abbrev pub may_transfer : Entry → Bool
may_transfer e = test_bit e.perms 2

abbrev pub is_port : HandleType → Bool
is_port HandleType.port = true
is_port _ = false

-- The checks of `ValidateCallPort` on the entry found; a port is named by the object of its entry.
unfoldable pub checked_port : Kernel → Option Entry → Result Entry
checked_port k none = fail err_badhandle
checked_port k (some e) =
    if not (may_send e)
    then fail err_noperm
    else if not (is_port e.type)
    then fail err_badtype
    else if e.object == 0
    then fail err_badhandle
    else if not (k.ports e.object).alive
    then fail err_dead
    else ok e

-- `ValidateCallPort`, without the write of the error to the frame.
unfoldable pub validate_call_port : Kernel → ℕ → ℕ → Result Entry
unfolding checked_port
validate_call_port k space h = checked_port k (lookup (k.tables space) h)

-- The entry that a grant copies.
unfoldable pub transferable : Option Entry → Result Entry
transferable none = fail err_badhandle
transferable (some e) = if not (may_transfer e) then fail err_noperm else ok e

-- `ValidateGrantHandle`: the error, or `none` for ZUZU_OK. A grant of `none` is the handle -1.
unfoldable pub validate_grant : Kernel → ℕ → Option ℕ → Option ℕ
unfolding transferable
validate_grant k space none = none
validate_grant k space (some h) = elim (transferable (lookup (k.tables space) h)) [
  | fail c ↦ some c
  | ok e ↦ none
]

abbrev pub code_of : Err → ℕ
code_of bad_type = err_badtype
code_of no_mem = err_nomem
code_of no_ent = err_noent

-- What a grant gives: the error, or the word for the new handle; and the tables after it.
pub data Granted : Type 0 where
  refused : ℕ → Kernel → Granted
  granted : ℕ → Kernel → Granted

-- The result of HandleCopyInto into the table of `space`.
unfoldable pub copied_into : Kernel → ℕ → Copied → Granted
copied_into k space (failed e t) =
    refused (code_of e) (record k { tables = update k.tables space t })
copied_into k space (done h t refs) =
    granted h (record k { tables = update k.tables space t; refs = refs })

-- The slot for the entry, in the table of `to`.
unfoldable pub slot_for : Bool → Kernel → ℕ → Result Entry → Granted
unfolding copied_into
slot_for memory k to (fail c) = refused c k
slot_for memory k to (ok e) =
    copied_into k to (copy_into memory (k.tables to) e e.perms e.marker k.refs)

-- `AllocateGrantSlot`. `memory` says whether the table may grow.
unfoldable pub allocate_grant_slot : Bool → Kernel → ℕ → ℕ → Option ℕ → Granted
unfolding transferable slot_for
allocate_grant_slot memory k from to none = granted (minus 1) k
allocate_grant_slot memory k from to (some h) =
    slot_for memory k to (transferable (lookup (k.tables from) h))

-- `GrantHandleAcross`, by the result of its validation.
unfoldable pub grant_valid : Bool → Kernel → ℕ → ℕ → Option ℕ → Option ℕ → Granted
unfolding allocate_grant_slot
grant_valid memory k from to h (some c) = refused c k
grant_valid memory k from to h none = allocate_grant_slot memory k from to h

unfoldable pub grant_handle_across : Bool → Kernel → ℕ → ℕ → Option ℕ → Granted
unfolding validate_grant grant_valid
grant_handle_across memory k from to h = grant_valid memory k from to h (validate_grant k from h)
