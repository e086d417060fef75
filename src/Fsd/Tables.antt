-- ===== src/Fsd/Tables.antt =====
-- The tables of user/services/fsd/tables.c. What the storage backend and the system calls answer is an
-- argument; the calls that leave the tables are recorded in order. The bytes that the backend keeps for
-- an open file are a number.
use zuzu.Base.{
  ℕ, zero, suc, ◌+◌, ◌*◌, ◌/◌, ◌%◌, ◌^◌, Bool, true, false, not, ◌&&◌, ◌||◌, Option, none, some,
  List, [], ◌∷◌, ◌++◌, ltb, leb, ◌==◌, if◌then◌else◌, is_some, get_elem?, set,
}
use mathlib.Core.Option

-- Error codes; `other` is one of the backend's or the kernel's.
pub data Err : Type 0 where
  ok : Err
  bad_arg : Err
  no_mem : Err
  buff_full : Err
  no_ent : Err
  other : ℕ → Err

abbrev pub is_ok : Err → Bool
is_ok ok = true
is_ok _ = false

pub record File : Type 0 where
  pub in_use : Bool
  pub slot : ℕ
  pub fd : ℕ
  pub backend_file : ℕ

abbrev pub no_file : File
no_file = record { in_use = false; slot = 0; fd = 0; backend_file = 0 }

abbrev pub max_files : ℕ
max_files = 64

abbrev pub max_per_client : ℕ
max_per_client = 16

-- The test of FileGet and FileClose.
unfoldable pub holds : ℕ → ℕ → File → Bool
holds slot fd f = f.in_use && (f.slot == slot && f.fd == fd)

unfoldable pub file_get : ℕ → ℕ → List File → Option ℕ
file_get slot fd [] = none
file_get slot fd (f ∷ files) =
    let rest = file_get slot fd files in if holds slot fd f then some f.backend_file else rest

-- How many files a client has open.
unfoldable pub file_count : ℕ → List File → ℕ
file_count slot [] = 0
file_count slot (f ∷ files) =
    let rest = file_count slot files in if f.in_use && f.slot == slot then suc rest else rest

-- The lowest number from `fd` on that the client has not open, `n` numbers being left.
unfoldable pub free_fd : ℕ → ℕ → ℕ → List File → ℕ
free_fd zero fd slot files = fd
free_fd (suc n) fd slot files =
    let next = free_fd n (fd + 1) slot files in
    if is_some (file_get slot fd files) then next else fd

-- The entry in the first place that is not in use; `none` where all are.
unfoldable pub place : File → List File → Option (List File)
place new [] = none
place new (f ∷ files) =
    let rest = Option.map (λ r. f ∷ r) (place new files) in
    if f.in_use then rest else some (new ∷ files)

abbrev pub entry : ℕ → ℕ → ℕ → File
entry slot fd backend = record { in_use = true; slot = slot; fd = fd; backend_file = backend }

pub data Opened : Type 0 where
  failed : Err → Opened
  opened : ℕ → List File → Opened

-- The backend's answer is `rc` and `backend`.
abbrev pub open_at : Err → ℕ → Option (List File) → Opened
open_at rc fd none = failed buff_full
open_at rc fd (some files) = if is_ok rc then opened fd files else failed rc

unfoldable pub file_open : ℕ → Err → ℕ → List File → Opened
file_open slot rc backend files =
    let fd = free_fd max_files 0 slot files in
    if leb max_per_client (file_count slot files)
    then failed buff_full
    else if fd == max_files
    then failed buff_full
    else open_at rc fd (place (entry slot fd backend) files)

-- The first entry of the file is cleared. `none` is ERR_NOENT; else the backend's answer is returned.
unfoldable pub file_close : ℕ → ℕ → List File → Option (List File)
file_close slot fd [] = none
file_close slot fd (f ∷ files) =
    let rest = Option.map (λ r. f ∷ r) (file_close slot fd files) in
    if holds slot fd f then some (no_file ∷ files) else rest

-- A handle of -1 is `none`.
pub record Client : Type 0 where
  pub client_in_use : Bool
  pub gen : ℕ
  pub shm_handle : ℕ
  pub live : Option ℕ
  pub buf : ℕ
  pub shm_size : ℕ

abbrev pub badge_of : ℕ → ℕ → ℕ
badge_of gen slot = gen * 256 % 2 ^ 32 + slot % 256

abbrev pub badge_slot : ℕ → ℕ
badge_slot badge = badge % 256

abbrev pub badge_gen : ℕ → ℕ
badge_gen badge = badge % 2 ^ 32 / 256

-- A generation is never 0.
unfoldable pub next_gen : ℕ → ℕ
next_gen gen = let g = (gen + 1) % 2 ^ 24 in if g == 0 then 1 else g

abbrev pub bad_size : ℕ → Bool
bad_size size = ltb size 4096 || ltb (4 * 1024 * 1024) size || not (size % 4096 == 0)

abbrev pub new_client : Client → ℕ → ℕ → ℕ → Client
new_client c shm va size = record {
  client_in_use = true;
  gen = next_gen c.gen;
  shm_handle = shm;
  live = none;
  buf = va;
  shm_size = size;
}

pub data Registered : Type 0 where
  refused : Err → Registered
  registered : ℕ → List Client → Registered

abbrev pub behind_client : Client → Registered → Registered
behind_client c (refused e) = refused e
behind_client c (registered badge cs) = registered badge (c ∷ cs)

-- From slot `i` on; `va` is the answer of MemMap.
unfoldable pub register_from : ℕ → ℕ → ℕ → Option ℕ → List Client → Registered
register_from i shm size va [] = refused no_mem
register_from i shm size none (c ∷ cs) =
    let rest = behind_client c (register_from (i + 1) shm size none cs) in
    if c.client_in_use then rest else refused no_mem
register_from i shm size (some va) (c ∷ cs) =
    let rest = behind_client c (register_from (i + 1) shm size (some va) cs) in
    if c.client_in_use
    then rest
    else registered (badge_of (next_gen c.gen) i) (new_client c shm va size ∷ cs)

-- `rc` and `size` are the answer of HandleQuery.
unfoldable pub client_register : ℕ → Err → ℕ → Option ℕ → List Client → Registered
client_register shm rc size va clients =
    if not (is_ok rc)
    then refused rc
    else if bad_size (size % 2 ^ 32)
    then refused bad_arg
    else register_from 0 shm (size % 2 ^ 32) va clients

abbrev pub client_at : ℕ → Option Client → Option ℕ
client_at badge none = none
client_at badge (some c) =
    if not c.client_in_use || not (c.gen == badge_gen badge) then none else some (badge_slot badge)

-- The slot of the client that a badge stands for.
unfoldable pub client_find : ℕ → List Client → Option ℕ
client_find badge clients =
    if badge == 0 then none else client_at badge (get_elem? clients (badge_slot badge))

pub data Call : Type 0 where
  backend_close : ℕ → Call
  mem_unmap : ℕ → Call
  handle_close : ℕ → Call
  handle_query : ℕ → Call
  debug_log : ℕ → Call

abbrev pub or_same : List File → Option (List File) → List File
or_same files none = files
or_same files (some files') = files'

abbrev pub close_one : ℕ → ℕ → List File → Option ℕ → List File × List Call
close_one slot fd files none = (files, [])
close_one slot fd files (some b) = (or_same files (file_close slot fd files), backend_close b ∷ [])

-- The numbers of a client from `fd` on, `n` of them, are closed.
unfoldable pub close_files : ℕ → ℕ → ℕ → List File → List File × List Call
close_files zero fd slot files = (files, [])
close_files (suc n) fd slot files =
    let one = close_one slot fd files (file_get slot fd files) in
    let rest = close_files n (fd + 1) slot one.0 in (rest.0, one.1 ++ rest.1)

abbrev pub close_live : Option ℕ → List Call
close_live none = []
close_live (some h) = handle_close h ∷ []

-- The generation stays. A cleared `live` is the handle 0.
abbrev pub gone_client : ℕ → Client
gone_client gen = record {
  client_in_use = false;
  gen = gen;
  shm_handle = 0;
  live = some 0;
  buf = 0;
  shm_size = 0;
}

pub record Dropped : Type 0 where
  pub clients : List Client
  pub files : List File
  pub calls : List Call

-- For the client `c` in the slot.
unfoldable pub client_drop : ℕ → Client → List Client → List File → Dropped
client_drop slot c clients files =
    let r = close_files max_files 0 slot files in
    record {
      clients = set clients slot (gone_client c.gen);
      files = r.0;
      calls = r.1 ++ (mem_unmap c.buf ∷ handle_close c.shm_handle ∷ []) ++ close_live c.live;
    }
