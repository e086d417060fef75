-- ===== src/Ipc/Links/Grants.antt =====
-- A grant changes handle tables and reference counts alone, and so moves no caller.
use zuzu.Base.{ℕ, ◌≡◌, refl, Bool, Option, none, some}
use zuzu.Handle.Defs.{Entry, Copied, failed, done, copy_into, lookup}
use zuzu.Sched.Defs.{update}
use zuzu.Ipc.Calls.Defs.{Kernel, Result, ok, fail}
use zuzu.Ipc.Calls.Grant.{
  transferable, slot_for, grant_valid, allocate_grant_slot, copied_into, grant_handle_across,
  validate_grant, Granted, refused, granted,
}
use zuzu.Ipc.Links.Place.{Same, Same-self}
use zuzu.Ipc.Links.Frames.{Same-tables}

-- The state that a grant leaves.
abbrev pub state_of : Granted → Kernel
state_of (refused c k) = k
state_of (granted w k) = k

copied_into-Same :
    (k : Kernel) (space : ℕ) (c : Copied) (d : ℕ) → Same k (state_of (copied_into k space c)) d
unfolding copied_into
copied_into-Same k space (failed e t) d = Same-tables k (update k.tables space t) k.refs d
copied_into-Same k space (done h t refs) d = Same-tables k (update k.tables space t) refs d

slot_for-Same :
    (memory : Bool) (k : Kernel) (to : ℕ) (r : Result Entry) (d : ℕ)
    → Same k (state_of (slot_for memory k to r)) d
unfolding slot_for
slot_for-Same memory k to (fail c) d = Same-self k d
slot_for-Same memory k to (ok e) d =
    copied_into-Same k to (copy_into memory (k.tables to) e e.perms e.marker k.refs) d

-- A grant changes handle tables and reference counts alone.
pub allocate_grant_slot-Same :
    (memory : Bool) (k : Kernel) (from to : ℕ) (grant : Option ℕ) (d : ℕ)
    → Same k (state_of (allocate_grant_slot memory k from to grant)) d
unfolding allocate_grant_slot
allocate_grant_slot-Same memory k from to none d = Same-self k d
allocate_grant_slot-Same memory k from to (some h) d =
    slot_for-Same memory k to (transferable (lookup (k.tables from) h)) d

grant_valid-Same :
    (memory : Bool) (k : Kernel) (from to : ℕ) (grant checked : Option ℕ) (d : ℕ)
    → Same k (state_of (grant_valid memory k from to grant checked)) d
unfolding grant_valid
grant_valid-Same memory k from to grant (some c) d = Same-self k d
grant_valid-Same memory k from to grant none d = allocate_grant_slot-Same memory k from to grant d

pub grant_handle_across-Same :
    (memory : Bool) (k : Kernel) (from to : ℕ) (grant : Option ℕ) (d : ℕ)
    → Same k (state_of (grant_handle_across memory k from to grant)) d
unfolding grant_handle_across
grant_handle_across-Same memory k from to grant d =
    grant_valid-Same memory k from to grant (validate_grant k from grant) d

copied_into_tasks :
    (k : Kernel) (space : ℕ) (c : Copied) → (state_of (copied_into k space c)).tasks ≡ k.tasks
unfolding copied_into
copied_into_tasks k space (failed e t) = refl
copied_into_tasks k space (done h t refs) = refl

slot_for_tasks :
    (memory : Bool) (k : Kernel) (to : ℕ) (r : Result Entry)
    → (state_of (slot_for memory k to r)).tasks ≡ k.tasks
unfolding slot_for
slot_for_tasks memory k to (fail c) = refl
slot_for_tasks memory k to (ok e) =
    copied_into_tasks k to (copy_into memory (k.tables to) e e.perms e.marker k.refs)

pub allocate_grant_slot_tasks :
    (memory : Bool) (k : Kernel) (from to : ℕ) (grant : Option ℕ)
    → (state_of (allocate_grant_slot memory k from to grant)).tasks ≡ k.tasks
unfolding allocate_grant_slot
allocate_grant_slot_tasks memory k from to none = refl
allocate_grant_slot_tasks memory k from to (some h) =
    slot_for_tasks memory k to (transferable (lookup (k.tables from) h))

grant_valid_tasks :
    (memory : Bool) (k : Kernel) (from to : ℕ) (grant checked : Option ℕ)
    → (state_of (grant_valid memory k from to grant checked)).tasks ≡ k.tasks
unfolding grant_valid
grant_valid_tasks memory k from to grant (some c) = refl
grant_valid_tasks memory k from to grant none = allocate_grant_slot_tasks memory k from to grant

pub grant_handle_across_tasks :
    (memory : Bool) (k : Kernel) (from to : ℕ) (grant : Option ℕ)
    → (state_of (grant_handle_across memory k from to grant)).tasks ≡ k.tasks
unfolding grant_handle_across
grant_handle_across_tasks memory k from to grant =
    grant_valid_tasks memory k from to grant (validate_grant k from grant)
