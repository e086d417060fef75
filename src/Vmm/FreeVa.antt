-- ===== src/Vmm/FreeVa.antt =====
-- `VmmFindFreeVa`: the first hole that is large enough.
use zuzu.Base.{
  ℕ, zero, suc, ◌+◌, ◌-◌, ◌%◌, ◌≤◌, ◌<◌, ◌≡◌, ◌⊎◌, inl, inr, List, [], ◌∷◌, arith, ltb, leb, ◌==◌,
  ◌&&◌, ◌||◌, if◌then◌else◌, length, Bool-cases,
}
use zuzu.Vmm.Defs.{
  Region, AddressSpace, region_at, region_end, align_up, free_va_loop, find_free_va,
}
use zuzu.Vmm.Valid.{IsValid}

-- No region has an address in `[va, va + size)`.
abbrev pub IsHole : List Region → ℕ → ℕ → Type 0
IsHole rs va size =
    (i : ℕ)
    → i < length rs
    → ((region_at rs i).vaddr_start + (region_at rs i).size ≤ va)
      ⊎ (va + size ≤ (region_at rs i).vaddr_start)

tail-IsValid : {r : Region} {rs : List Region} → IsValid (r ∷ rs) → IsValid rs
tail-IsValid v = record {
  placed = λ i h. v.placed (suc i) (omega arith);
  ordered = λ i j h k. v.ordered (suc i) (suc j) (omega arith) (omega arith);
  few = omega (arith, v.few);
}

-- What a search for a hole at `cand` or above returns: the hole, or 0 where there is none.
pub data Hole (rs : List Region) (cand hi size : ℕ) : ℕ → Type 0 where
  room :
      {va : ℕ}
      → cand ≤ va
      → va + size ≤ hi
      → IsHole rs va size
      → ((c : ℕ) → cand ≤ c → c % 4096 ≡ 0 → c + size ≤ hi → IsHole rs c size → va ≤ c)
      → Hole rs cand hi size va
  full :
      ((c : ℕ) → cand ≤ c → c % 4096 ≡ 0 → c + size ≤ hi → ¬ IsHole rs c size)
      → Hole rs cand hi size 0

-- The regions of a valid list start where the first does, or above.
starts_above :
    (r : Region) (rs : List Region)
    → IsValid (r ∷ rs)
    → (b : ℕ) → b ≤ r.vaddr_start
    → (i : ℕ) → i < length (r ∷ rs)
    → b ≤ (region_at (r ∷ rs) i).vaddr_start
starts_above r rs v b h zero l = h
starts_above r rs v b h (suc i) l = omega (arith, v.ordered 0 (suc i) (omega arith) l)

IsHole-cons :
    (r : Region) (rs : List Region) (va size : ℕ)
    → (r.vaddr_start + r.size ≤ va) ⊎ (va + size ≤ r.vaddr_start)
    → IsHole rs va size
    → IsHole (r ∷ rs) va size
IsHole-cons r rs va size h k zero l = h
IsHole-cons r rs va size h k (suc i) l = k i (omega arith)

-- A search that goes on behind the first region.
past :
    (r : Region) (rs : List Region) (cand cand' : ℕ) {hi size o : ℕ}
    → cand ≤ cand'
    → r.vaddr_start + r.size ≤ cand'
    → ((c : ℕ) → cand ≤ c → c % 4096 ≡ 0 → c + size ≤ hi → IsHole (r ∷ rs) c size → cand' ≤ c)
    → Hole rs cand' hi size o
    → Hole (r ∷ rs) cand hi size o
past r rs cand cand' le ends jump (room {va} a b hole low) =
    room (omega arith) b (IsHole-cons r rs va _ (inl (omega arith)) hole)
      λ c l al top h. low c (jump c l al top h) al top λ i k. h (suc i) (omega arith)
past r rs cand cand' le ends jump (full no_hole) =
    full λ c l al top h. no_hole c (jump c l al top h) al top λ i k. h (suc i) (omega arith)

module _ (hi size : ℕ) (pos : 0 < size) where
  -- The end of the window, behind the last region that matters.
  last-Hole :
      (rs : List Region) (cand : ℕ)
      → cand < hi
      → ((i : ℕ) → i < length rs → hi ≤ (region_at rs i).vaddr_start)
      → Hole rs cand hi size (if leb size (hi - cand) then cand else 0)
  last-Hole rs cand lt above = elim (Bool-cases (leb size (hi - cand))) [
    | inl fits ↦
        rw fits (
          room (omega arith) (ground arith) (λ i h. inr (ground (arith, above i h))) λ c a b d e. a)
    | inr small ↦ rw small (full λ c a b d e. ground arith)
  ]

  free_va_loop-Hole :
      (rs : List Region) (cand : ℕ)
      → IsValid rs
      → cand < hi
      → Hole rs cand hi size (free_va_loop rs cand hi size)
  unfolding free_va_loop
  free_va_loop-Hole [] cand v lt = last-Hole [] cand lt λ i h. absurd (omega arith)
  free_va_loop-Hole (r ∷ rs) cand v lt =
      let r_end = align_up (region_end r) in
      let p = v.placed 0 (omega arith) in
      let ends : (r.vaddr_start + r.size ≤ r_end)
          × (r_end < r.vaddr_start + r.size + 4096)
          × (r_end % 4096 ≡ 0) =
        (omega (arith, p.in_space), omega (arith, p.in_space), omega arith) in
      elim (Bool-cases (leb r_end cand)) [
        | inl below ↦ rw below (
            past r rs cand cand (omega arith) (ground arith) (λ c a b d e. a)
              (free_va_loop-Hole rs cand (tail-IsValid v) lt))
        | inr reaches ↦ rw reaches (elim (Bool-cases (leb hi r.vaddr_start)) [
          | inl beyond ↦
              rw beyond (last-Hole (r ∷ rs) cand lt (starts_above r rs v hi (ground arith)))
          | inr before ↦
              rw before
                (elim (Bool-cases (ltb cand r.vaddr_start && leb size (r.vaddr_start - cand))) [
                  | inl gap ↦ rw gap (
                      room (omega arith) (ground arith)
                        (λ i h. inr (starts_above r rs v (cand + size) (ground arith) i h))
                        λ c a b d e. a)
                  | inr no_gap ↦ rw no_gap (
                      let behind : (c : ℕ)
                          → cand ≤ c
                          → c % 4096 ≡ 0
                          → c + size ≤ hi
                          → IsHole (r ∷ rs) c size
                          → r_end ≤ c =
                        λ c a b d e. ground (arith, e 0 (omega arith)) in
                      elim (Bool-cases (leb hi r_end)) [
                        | inl out ↦ rw out (full λ c a b d e. ground (arith, behind c a b d e))
                        | inr inside ↦ rw inside (
                            past r rs cand r_end (ground arith) ends.0 behind
                              (free_va_loop-Hole rs r_end (tail-IsValid v) (ground arith)))
                      ])
                ])
        ])
      ]

-- In a valid address space, for a size that is not 0, `VmmFindFreeVa` returns the start of a hole of
-- that size inside the window, not above any page-aligned start of such a hole. Otherwise it returns
-- 0, and no page-aligned address of the window starts such a hole.
pub find_free_va-Hole :
    (space : AddressSpace) (lo hi size : ℕ)
    → IsValid space.regions
    → 0 < size
    → Hole space.regions lo hi size (find_free_va space lo hi size)
unfolding find_free_va
find_free_va-Hole space lo hi size v pos =
    elim (Bool-cases (size == 0 || (leb hi lo || ltb (hi - lo) size))) [
      | inl bad ↦ rw bad (full λ c a b d e. ground arith)
      | inr good ↦ rw good (free_va_loop-Hole hi size pos space.regions lo v (ground arith))
    ]
