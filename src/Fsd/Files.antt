-- ===== src/Fsd/Files.antt =====
-- What FileOpen of user/services/fsd/tables.c promises.
use zuzu.Base.{
  ℕ, ◌≤◌, ◌<◌, ◌≡◌, inl, inr, true, false, ◌&&◌, Option, none, some, List, [], ◌∷◌, arith, ◌==◌,
  if◌then◌else◌, is_some, Bool-cases,
}
use mathlib.Core.Option
use mathlib.Core.Option.{some-ne-none}
use zuzu.Fsd.Tables.{
  Err, is_ok, buff_full, File, max_files, max_per_client, holds, file_get, file_count, place, entry,
  Opened, failed, opened,
}

-- No two open entries stand for the same number of the same client.
abbrev pub Unique : List File → Type 0
Unique [] = Unit
Unique (f ∷ files) = (f.in_use ≡ true → file_get f.slot f.fd files ≡ none) × Unique files

pub holds_self : (f : File) → f.in_use ≡ true → holds f.slot f.fd f ≡ true
unfolding holds
holds_self f u = ground arith

abbrev pub Placed : File → List File → List File → Type 0
Placed new files files' =
    (s d : ℕ)
    → file_get s d files' ≡ (if holds s d new then some new.backend_file else file_get s d files)

data PlaceOutcome (new : File) (files : List File) : Option (List File) → Type 0 where
  full : PlaceOutcome new files none
  placed :
      (files' : List File)
      → Placed new files files'
      → (Unique files → Unique files')
      → PlaceOutcome new files (some files')

-- A file that the table does not have is behind the first entry.
pub absent :
    (s d : ℕ) (f : File) (files : List File)
    → file_get s d (f ∷ files) ≡ none
    → (holds s d f ≡ false) × (file_get s d files ≡ none)
unfolding file_get
absent s d f files e = elim (Bool-cases (holds s d f)) [
  | inl h ↦ let e' = rw h at e in absurd (some-ne-none f.backend_file e')
  | inr h ↦ let e' = rw h at e in (h, e')
]

-- What FileOpen makes of the table: the client's lowest free number stands for what the backend opened,
-- and all other files of all clients are as before.
pub data OpenOutcome (slot : ℕ) (rc : Err) (backend : ℕ) (files : List File) : Opened → Type 0 where
  client_full :
      max_per_client ≤ file_count slot files → OpenOutcome slot rc backend files (failed buff_full)
  no_number :
      ((d : ℕ) → d < max_files → is_some (file_get slot d files) ≡ true)
      → OpenOutcome slot rc backend files (failed buff_full)
  table_full :
      (fd : ℕ)
      → place (entry slot fd backend) files ≡ none
      → OpenOutcome slot rc backend files (failed buff_full)
  backend_failed : is_ok rc ≡ false → OpenOutcome slot rc backend files (failed rc)
  done :
      (fd : ℕ) (files' : List File)
      → file_count slot files < max_per_client
      → is_ok rc ≡ true
      → fd < max_files
      → file_get slot fd files ≡ none
      → ((d : ℕ) → d < fd → is_some (file_get slot d files) ≡ true)
      → (Unique files → Unique files')
      → ((s d : ℕ)
          → file_get s d files'
            ≡ (if slot == s && fd == d then some backend else file_get s d files))
      → OpenOutcome slot rc backend files (opened fd files')
