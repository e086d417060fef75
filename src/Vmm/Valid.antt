-- ===== src/Vmm/Valid.antt =====
-- What a well-formed region list is, and what the list edits do to an index.
use zuzu.Base.{
  ℕ, zero, suc, ◌+◌, ◌-◌, ◌^◌, ◌≤◌, ◌<◌, ◌≡◌, refl, List, [], ◌∷◌, arith, ltb, ◌==◌, if◌then◌else◌,
  length,
}
use zuzu.Vmm.Defs.{Region, region_at, insert_at, remove_at}

-- `a` ends before `b` begins. Ends are exact: `IsPlaced` keeps them from wrapping.
abbrev pub Before : Region → Region → Type 0
Before a b = a.vaddr_start + a.size ≤ b.vaddr_start

-- A region is not empty, and the page that it ends in is not the last of the address space.
pub record IsPlaced (r : Region) : Type 0 where
  pub some_size : 0 < r.size
  pub in_space : r.vaddr_start + r.size ≤ 2 ^ 32 - 4096

-- Sorted by address, and no two overlap.
pub record IsValid (rs : List Region) : Type 0 where
  pub placed : (i : ℕ) → i < length rs → IsPlaced (region_at rs i)
  pub ordered : (i j : ℕ) → i < j → j < length rs → Before (region_at rs i) (region_at rs j)
  pub few : length rs < 2 ^ 31

pub region_at-insert_at :
    (rs : List Region) (k i : ℕ) (r : Region)
    → k ≤ length rs
    → region_at (insert_at k r rs) i
      ≡ (if ltb i k then region_at rs i else if i == k then r else region_at rs (i - 1))
unfolding insert_at
region_at-insert_at rs zero zero r h = refl
region_at-insert_at rs zero (suc i) r h = ground arith
region_at-insert_at [] (suc k) i r h = absurd (omega arith)
region_at-insert_at (x ∷ rs) (suc k) zero r h = ground arith
region_at-insert_at (x ∷ rs) (suc k) (suc zero) r h =
    ground (arith, region_at-insert_at rs k zero r (omega arith))
region_at-insert_at (x ∷ rs) (suc k) (suc (suc i)) r h =
    ground (arith, region_at-insert_at rs k (suc i) r (omega arith))

pub length-insert_at :
    (rs : List Region) (k : ℕ) (r : Region)
    → k ≤ length rs
    → length (insert_at k r rs) ≡ suc (length rs)
unfolding insert_at
length-insert_at rs zero r h = refl
length-insert_at [] (suc k) r h = absurd (omega arith)
length-insert_at (x ∷ rs) (suc k) r h = omega (arith, length-insert_at rs k r (omega arith))

pub region_at-remove_at :
    (rs : List Region) (k i : ℕ)
    → k < length rs
    → region_at (remove_at k rs) i ≡ (if ltb i k then region_at rs i else region_at rs (suc i))
unfolding remove_at
region_at-remove_at [] k i h = absurd (omega arith)
region_at-remove_at (x ∷ rs) zero zero h = refl
region_at-remove_at (x ∷ rs) zero (suc i) h = ground arith
region_at-remove_at (x ∷ rs) (suc k) zero h = ground arith
region_at-remove_at (x ∷ rs) (suc k) (suc i) h =
    ground (arith, region_at-remove_at rs k i (omega arith))

pub length-remove_at :
    (rs : List Region) (k : ℕ) → k < length rs → suc (length (remove_at k rs)) ≡ length rs
unfolding remove_at
length-remove_at [] k h = absurd (omega arith)
length-remove_at (x ∷ rs) zero h = refl
length-remove_at (x ∷ rs) (suc k) h = omega (arith, length-remove_at rs k (omega arith))
