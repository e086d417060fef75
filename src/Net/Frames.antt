-- ===== src/Net/Frames.antt =====
-- The ring of Ethernet frames, include/net/packetring.h and include/net/packetring.c.
use zuzu.Base.{
  ℕ, zero, suc, ◌+◌, ◌-◌, ◌*◌, ◌/◌, ◌%◌, ◌^◌, ◌≤◌, ◌<◌, ◌≡◌, refl, sym, ap, ◌≢◌, ◌↔◌, ◌⊎◌, inl, inr,
  Bool, true, false, not, ◌&&◌, ◌||◌, Option, none, some, List, [], ◌∷◌, ◌++◌, map, arith, ltb, leb,
  ◌==◌, if◌then◌else◌, Bool-cases, Option-cases,
}
use zuzu.Base.{length, take, drop}
pub mod Fifo
pub mod Tests

abbrev pub frame_size : ℕ
frame_size = 1536

abbrev pub ring_depth : ℕ
ring_depth = 16

pub record Frame : Type 0 where
  pub len : ℕ
  pub bytes : List ℕ

pub record Ring : Type 0 where
  pub slots : ℕ → Frame
  pub head : ℕ
  pub tail : ℕ

pub data Code : Type 0 where
  ok : Code
  overflow : Code
  bad_arg : Code
  buf_full : Code
  buf_empty : Code

abbrev pub update {ℓ} : {A : Type ℓ} → (ℕ → A) → ℕ → A → ℕ → A
update f k v j = if k == j then v else f j

-- `memcpy(dst, src, n)`.
abbrev pub copy : List ℕ → List ℕ → ℕ → List ℕ
copy dst src n = take n src ++ drop n dst

abbrev pub next : ℕ → ℕ
next i = (i + 1) % ring_depth

abbrev pub is_full : Ring → Bool
is_full r = next r.head == r.tail

-- A frame of `len` bytes of `src` is written over slot `head`.
unfoldable pub store : Ring → List ℕ → ℕ → Ring
store r src len = record r {
  slots = update r.slots r.head (record { len = len; bytes = copy (r.slots r.head).bytes src len });
}

unfoldable pub commit : Ring → Ring
commit r = record r { head = next r.head }

unfoldable pub consume : Ring → Ring
consume r = record r { tail = next r.tail }

-- `none` is a null `src`; the ring pointer is not null.
unfoldable pub push : Ring → Option (List ℕ) → ℕ → Code × Ring
push r none len = (overflow, r)
push r (some src) len =
    if ltb frame_size len
    then (overflow, r)
    else if is_full r
    then (buf_full, r)
    else (ok, commit (store r src len))

-- The frame `dst` is returned; a null `dst` is `none`. The length of the slot is read as a uint16_t.
unfoldable pub pop : Option Frame → Ring → Code × (Option Frame × Ring)
pop none r = (bad_arg, (none, r))
pop (some dst) r =
    let f = r.slots r.tail in
    let len = f.len % 2 ^ 16 in
    if r.head == r.tail
    then (buf_empty, (some dst, r))
    else if ltb frame_size len
    then (overflow, (some dst, consume r))
    else (ok, (some (record { len = len; bytes = copy dst.bytes f.bytes len }), consume r))

-- The index of the slot whose address is returned.
unfoldable pub reserve : Ring → Option ℕ
reserve r = if is_full r then none else some r.head

unfoldable pub peek : Ring → Option ℕ
peek r = if r.head == r.tail then none else some r.tail
