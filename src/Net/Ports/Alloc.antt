-- ===== src/Net/Ports/Alloc.antt =====
-- Ports are given to one owner at a time, and PortAlloc finds one wherever the table has room.
use zuzu.Base.{
  ℕ, zero, suc, ◌+◌, ◌-◌, ◌%◌, ◌≤◌, ◌<◌, ◌≡◌, refl, ◌∙◌, ◌≢◌, inl, inr, Option, none, some, List,
  arith, ◌==◌, Bool-cases,
}
use zuzu.Base.{length}
use zuzu.Net.Ports.{
  ephemeral_min, ephemeral_max, max_held, Ports, is_held, hold, advance, try_port, alloc_loop,
  port_alloc, port_release,
}
use zuzu.Net.Ports.Count.{
  count, is_held-count, held-count, Replaced, missing, replaced, replace-Replaced, distinct-length,
}

-- The table has its 64 entries, no port stands in it twice, and the cursor is an ephemeral port.
pub record IsPorts (s : Ports) : Type 0 where
  pub entries : length s.held ≡ max_held
  pub once : (p : ℕ) → p ≢ 0 → count p s.held ≤ 1
  pub cursor : (ephemeral_min ≤ s.next_ephemeral) × (s.next_ephemeral ≤ ephemeral_max)

-- What PortAlloc promises.
pub data Allotted (s : Ports) : ℕ × Ports → Type 0 where
  allotted :
      (port : ℕ) (s' : Ports)
      → (ephemeral_min ≤ port) × (port ≤ ephemeral_max)
      → count port s.held ≡ 0
      → count port s'.held ≡ 1
      → ((q : ℕ) → q ≢ 0 → q ≢ port → count q s'.held ≡ count q s.held)
      → IsPorts s'
      → Allotted s (port, s')
  all_in_use :
      (s' : Ports) → count 0 s.held ≡ 0 → s'.held ≡ s.held → IsPorts s' → Allotted s (0, s')

-- The port that the cursor `c` reaches after `i` turns.
abbrev nth : ℕ → ℕ → ℕ
nth c i = ephemeral_min + (c - ephemeral_min + i) % 16384

-- What `n` turns of the loop do: without a port, each one tried is held, or the table is full.
data Turned (s : Ports) (n : ℕ) : ℕ × Ports → Type 0 where
  got : (r : ℕ × Ports) → Allotted s r → Turned s n r
  tried :
      (s' : Ports)
      → s'.held ≡ s.held
      → IsPorts s'
      → (0 < count 0 s.held → (i : ℕ) → i < n → 0 < count (nth s.next_ephemeral i) s.held)
      → Turned s n (0, s')

module _ (s : Ports) (v : IsPorts s) where
  abbrev moved : Ports
  moved = record s { next_ephemeral = advance s.next_ephemeral }

  moved-IsPorts : IsPorts moved
  moved-IsPorts =
      let low = v.cursor.0 in
      let high = v.cursor.1 in record { entries = v.entries; once = v.once; cursor = ground arith }

  abbrev AllHeld : ℕ → ℕ → Type 0
  AllHeld c n = (i : ℕ) → i < n → 0 < count (nth c i) s.held

  one_more :
      (n : ℕ)
      → 0 < count s.next_ephemeral s.held
      → AllHeld (advance s.next_ephemeral) n
      → AllHeld s.next_ephemeral (suc n)
  one_more n here all zero lt =
      let low = v.cursor.0 in
      let high = v.cursor.1 in
      let e : nth s.next_ephemeral 0 ≡ s.next_ephemeral = omega arith in rw e here
  one_more n here all (suc i) lt =
      let low = v.cursor.0 in
      let high = v.cursor.1 in
      let e : nth s.next_ephemeral (suc i) ≡ nth (advance s.next_ephemeral) i = ground arith in
      rw e (all i (omega arith))

  -- A turn whose port is held, or finds no room, goes on.
  go_on :
      (n : ℕ) (r : ℕ × Ports)
      → (0 < count 0 s.held → 0 < count s.next_ephemeral s.held)
      → Turned moved n r
      → Turned s (suc n) r
  go_on n _ here (tried s' same v' all) =
      tried s' same v' (λ room. one_more n (here room) (all room))
  go_on n r here (got _ a) = got _ (widen r a)
    where
      widen : (r : ℕ × Ports) → Allotted moved r → Allotted s r
      widen _ (allotted port s' range new one others v') = allotted port s' range new one others v'
      widen _ (all_in_use s' z same v') = all_in_use s' z same v'

  taken :
      (n : ℕ) (o : Option (List ℕ)) (rest : ℕ × Ports)
      → count s.next_ephemeral s.held ≡ 0
      → Replaced s.held 0 s.next_ephemeral o
      → Turned moved n rest
      → Turned s (suc n) (try_port moved s.next_ephemeral o rest)
  unfolding try_port
  taken n _ rest new (missing z) t = go_on n rest (λ room. absurd (omega arith)) t
  taken n _ rest new (replaced held' l o m others) t = got _ (
      allotted s.next_ephemeral _ v.cursor new (omega arith) (λ q a b. others q a b)
        (record {
          entries = l ∙ v.entries;
          once = λ p nz. elim (Bool-cases (p == s.next_ephemeral)) [
            | inl same ↦ let e : p ≡ s.next_ephemeral = ground arith in rw e (omega arith)
            | inr other ↦ let same = others p nz (ground arith) in omega (arith, v.once p nz)
          ];
          cursor = moved-IsPorts.cursor;
        }))

alloc_loop-Turned : (n : ℕ) (s : Ports) → IsPorts s → Turned s n (alloc_loop n s)
unfolding alloc_loop
alloc_loop-Turned zero s v = tried s refl v (λ room i lt. absurd (omega arith))
alloc_loop-Turned (suc n) s v =
    let t = alloc_loop-Turned n (moved s v) (moved-IsPorts s v) in
    elim (Bool-cases (is_held s.held s.next_ephemeral)) [
      | inl h ↦ rw h (go_on s v n _ (λ room. held-count s.held s.next_ephemeral h) t)
      | inr new ↦
          let c = v.cursor.0 in
          rw new (
            taken s v n (hold s.held s.next_ephemeral) _ (is_held-count s.held s.next_ephemeral new)
              (unfold hold in
                replace-Replaced s.held 0 s.next_ephemeral (λ e. absurd (omega arith)))
              t)
    ]

-- A table of 64 entries cannot hold 65 ports.
full_of : (s : Ports) → IsPorts s → (r : ℕ × Ports) → Turned s 16384 r → Allotted s r
full_of s v r (got _ a) = a
full_of s v _ (tried s' same v' all) = elim (Bool-cases (count 0 s.held == 0)) [
  | inl z ↦ all_in_use s' (ground arith) same v'
  | inr room ↦
      let low = v.cursor.0 in
      let high = v.cursor.1 in
      let far =
        distinct-length (nth s.next_ephemeral) 65 s.held (λ i j a b e. absurd (omega arith))
          (λ i lt. all (ground arith) i (omega arith)) in
      absurd (omega (arith, v.entries))
]

-- On a table in which no port stands twice, PortAlloc returns a port of the ephemeral range that was
-- not held, holds it and leaves every other port as it was, or it returns 0 and leaves the table as
-- it was, and then all 64 entries are in use; the table stays as it should be.
pub port_alloc-Allotted : (s : Ports) → IsPorts s → Allotted s (port_alloc s)
unfolding port_alloc
port_alloc-Allotted s v = full_of s v _ (alloc_loop-Turned 16384 s v)

-- What PortRelease promises.
pub record Freed (s : Ports) (port : ℕ) (s' : Ports) : Type 0 where
  pub gone : count port s'.held ≡ 0
  pub others : (q : ℕ) → q ≢ 0 → q ≢ port → count q s'.held ≡ count q s.held
  pub sound : IsPorts s'

freed :
    (s : Ports) (port : ℕ) (o : Option (List ℕ))
    → IsPorts s
    → port ≢ 0
    → Replaced s.held port 0 o
    → Freed s port (elim o [ none ↦ s | some held ↦ record s { held = held } ])
freed s port _ v nz (missing z) = record { gone = z; others = λ q a b. refl; sound = v }
freed s port _ v nz (replaced held' l o m others) =
    let few = v.once port nz in
    let gone : count port held' ≡ 0 = omega arith in
    record {
      gone = gone;
      others = λ q a b. others q b a;
      sound = record {
        entries = l ∙ v.entries;
        once = λ p pz. elim (Bool-cases (p == port)) [
          | inl same ↦ let e : p ≡ port = ground arith in rw e (omega arith)
          | inr other ↦ let same = others p (ground arith) pz in omega (arith, v.once p pz)
        ];
        cursor = v.cursor;
      };
    }

-- On a table in which no port stands twice, PortRelease of a port other than 0 leaves the port free
-- and every other port as it was, and the table as it should be.
pub port_release-Freed :
    (s : Ports) (port : ℕ) → IsPorts s → port ≢ 0 → Freed s port (port_release s port)
unfolding port_release
port_release-Freed s port v nz = freed s port _ v nz (replace-Replaced s.held port 0 nz)
