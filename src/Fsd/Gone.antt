-- ===== src/Fsd/Gone.antt =====
-- What ClientDrop of user/services/fsd/tables.c does to the open files.
use zuzu.Base.{
  ℕ, zero, suc, ◌+◌, ◌≡◌, refl, ap, ◌∙◌, Bool, true, false, ◌&&◌, Option, none, some, List, arith,
  leb, ltb, ◌==◌, if◌then◌else◌, Bool-cases, inl, inr,
}
use mathlib.Core.Path.{subst}
use zuzu.Fsd.Tables.{File, file_get, file_close, or_same, close_one, close_files}
use zuzu.Fsd.Files.{Unique}
use zuzu.Fsd.Close.{CloseOutcome, not_open, closed, file_close-CloseOutcome}

-- The table without the files `from` to `from + n - 1` of the client in `slot`.
pub record Without (slot from n : ℕ) (files files' : List File) : Type 0 where
  pub unique : Unique files'
  pub gets :
      (s d : ℕ)
      → file_get s d files'
        ≡ (if slot == s && (leb from d && ltb d (from + n)) then none else file_get s d files)

-- FileClose, where an error leaves the table as it is.
close_lem :
    (slot fd : ℕ) (files : List File) (o : Option (List File))
    → Unique files
    → CloseOutcome slot fd files o
    → Unique (or_same files o)
      × ((s d : ℕ)
          → file_get s d (or_same files o)
            ≡ (if slot == s && fd == d then none else file_get s d files))
close_lem slot fd files o u (closed files' is keeps p) = (keeps, p)
close_lem slot fd files o u (not_open e) = (
  u,
  λ s d. elim (Bool-cases (slot == s && fd == d)) [
    | inl k ↦ let a : s ≡ slot = ground arith in let b : d ≡ fd = ground arith in rw (k, a, b) e
    | inr k ↦ rw k refl
  ],
)

close_one-Without :
    (slot fd : ℕ) (files : List File) (o : Option ℕ)
    → Unique files
    → file_get slot fd files ≡ o
    → Without slot fd 1 files (close_one slot fd files o).0
close_one-Without slot fd files none u e = record {
  unique = u;
  gets = λ s d. elim (Bool-cases (slot == s && (leb fd d && ltb d (fd + 1)))) [
    | inl k ↦ let a : s ≡ slot = ground arith in let b : d ≡ fd = ground arith in rw (k, a, b) e
    | inr k ↦ rw k refl
  ];
}
close_one-Without slot fd files (some b) u e =
    let c =
      close_lem slot fd files (file_close slot fd files) u
        (file_close-CloseOutcome slot fd files u) in
    record {
      unique = c.0;
      gets = λ s d.
          let same : (slot == s && fd == d) ≡ (slot == s && (leb fd d && ltb d (fd + 1))) =
            ground arith in
          subst
            (λ t.
              file_get s d (or_same files (file_close slot fd files))
              ≡ (if t then none else file_get s d files))
            same (c.1 s d);
    }

-- Taking out a range of numbers and then the range behind it.
both_ranges :
    (slot from n m : ℕ) (files files1 files2 : List File)
    → Without slot from n files files1
    → Without slot (from + n) m files1 files2
    → Without slot from (n + m) files files2
both_ranges slot from n m files files1 files2 a b = record {
  unique = b.unique;
  gets = λ s d.
      b.gets s d ∙ elim (Bool-cases (slot == s && (leb (from + n) d && ltb d (from + n + m)))) [
        | inl k ↦
            let j : (slot == s && (leb from d && ltb d (from + (n + m)))) ≡ true = ground arith in
            rw (k, j) refl
        | inr k ↦ rw k (
            a.gets s d
            ∙ (let j : (slot == s && (leb from d && ltb d (from + n)))
                    ≡ (slot == s && (leb from d && ltb d (from + (n + m)))) =
                  ground arith in
                ap (λ (t : Bool). if t then none else file_get s d files) j))
      ];
}

-- The loop of ClientDrop over the numbers of a client closes all of them.
pub close_files-Without :
    (n fd slot : ℕ) (files : List File)
    → Unique files
    → Without slot fd n files (close_files n fd slot files).0
unfolding close_files
close_files-Without zero fd slot files u = record {
  unique = u;
  gets = λ s d.
      let k : (slot == s && (leb fd d && ltb d (fd + zero))) ≡ false = ground arith in rw k refl;
}
close_files-Without (suc n) fd slot files u =
    let one = close_one slot fd files (file_get slot fd files) in
    let a = close_one-Without slot fd files (file_get slot fd files) u refl in
    let rest = close_files-Without n (fd + 1) slot one.0 a.unique in
    let whole : 1 + n ≡ suc n = omega arith in
    subst (λ m. Without slot fd m files (close_files n (fd + 1) slot one.0).0) whole
      (both_ranges slot fd 1 n files one.0 (close_files n (fd + 1) slot one.0).0 a rest)
