-- ===== src/Fsd/Close.antt =====
-- What FileClose of user/services/fsd/tables.c promises.
use zuzu.Base.{
  ℕ, ◌≡◌, refl, sym, ◌∙◌, true, false, ◌&&◌, Option, none, some, List, [], ◌∷◌, arith, ◌==◌,
  if◌then◌else◌, is_some, Bool-cases, inl, inr,
}
use mathlib.Core.Bool.{true≢false}
use mathlib.Core.Option
use zuzu.Fsd.Tables.{File, no_file, holds, file_get, file_close}
use zuzu.Fsd.Files.{Unique}

-- The entry of an open file is cleared and every other file stays; a file that is not open is an error.
pub data CloseOutcome (slot fd : ℕ) (files : List File) : Option (List File) → Type 0 where
  not_open : file_get slot fd files ≡ none → CloseOutcome slot fd files none
  closed :
      (files' : List File)
      → is_some (file_get slot fd files) ≡ true
      → Unique files'
      → ((s d : ℕ)
          → file_get s d files' ≡ (if slot == s && fd == d then none else file_get s d files))
      → CloseOutcome slot fd files (some files')

-- The keys of an entry that the test accepts.
holds_keys :
    (s d : ℕ) (f : File) → holds s d f ≡ true → (f.slot ≡ s) × ((f.fd ≡ d) × (f.in_use ≡ true))
unfolding holds
holds_keys s d f h = (ground arith, (ground arith, ground arith))

-- Only the key of an entry passes its test.
holds_only : (s d a b : ℕ) (f : File) → holds a b f ≡ true → holds s d f ≡ (a == s && b == d)
unfolding holds
holds_only s d a b f h = let k = holds_keys a b f h in ground (arith, k.0, k.1.0, k.1.1)

no_file-unused : (s d : ℕ) → holds s d no_file ≡ false
unfolding holds
no_file-unused s d = refl

at_first :
    (slot fd : ℕ) (f : File) (files : List File)
    → holds slot fd f ≡ true
    → Unique (f ∷ files)
    → CloseOutcome slot fd (f ∷ files) (some (no_file ∷ files))
unfolding file_get
at_first slot fd f files h u =
    let k = holds_keys slot fd f h in
    closed (no_file ∷ files) (rw h refl) ((λ t. absurd (true≢false (sym t))), u.1)
      (λ s d. elim (Bool-cases (slot == s && fd == d)) [
        | inl e ↦
            let a : s ≡ f.slot = let k0 = k.0 in ground arith in
            let b : d ≡ f.fd = let k1 = k.1.0 in ground arith in
            let g : file_get s d files ≡ none = rw (a, b) (u.0 k.1.1) in
            rw (e, no_file-unused s d) g
        | inr e ↦ rw (no_file-unused s d, holds_only s d slot fd f h, e) refl
      ])

behind_other :
    (slot fd : ℕ) (f : File) (files : List File) (o : Option (List File))
    → holds slot fd f ≡ false
    → Unique (f ∷ files)
    → CloseOutcome slot fd files o
    → CloseOutcome slot fd (f ∷ files) (Option.map (λ r. f ∷ r) o)
unfolding file_get
behind_other slot fd f files o out u (not_open e) = not_open (rw out e)
behind_other slot fd f files o out u (closed files' is keeps p) =
    closed (f ∷ files') (rw out is) (first_alone, keeps)
      (λ s d. elim (Bool-cases (holds s d f)) [
        | inl h ↦ elim (Bool-cases (slot == s && fd == d)) [
          | inl e ↦
              let a : slot ≡ s = ground arith in
              let b : fd ≡ d = ground arith in
              let h' : holds slot fd f ≡ true = rw (a, b) h in absurd (true≢false (sym h' ∙ out))
          | inr e ↦ rw (h, e) refl
        ]
        | inr h ↦ rw h (p s d)
      ])
  where
    first_alone : f.in_use ≡ true → file_get f.slot f.fd files' ≡ none
    first_alone used = p f.slot f.fd ∙ elim (Bool-cases (slot == f.slot && fd == f.fd)) [
      | inl e ↦ rw e refl
      | inr e ↦ rw e (u.0 used)
    ]

-- Where no file is in the table twice, FileClose takes exactly the file out that it is asked for, and
-- answers ERR_NOENT, without a change, exactly where the client has no such file open.
pub file_close-CloseOutcome :
    (slot fd : ℕ) (files : List File)
    → Unique files
    → CloseOutcome slot fd files (file_close slot fd files)
unfolding file_close file_get
file_close-CloseOutcome slot fd [] u = not_open refl
file_close-CloseOutcome slot fd (f ∷ files) u = elim (Bool-cases (holds slot fd f)) [
  | inl h ↦ rw h (at_first slot fd f files h u)
  | inr h ↦ rw h (
      behind_other slot fd f files (file_close slot fd files) h u
        (file_close-CloseOutcome slot fd files u.1))
]
