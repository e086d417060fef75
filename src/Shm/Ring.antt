-- ===== src/Shm/Ring.antt =====
-- The header and the operations of include/zuzu/shm_ring.c. A byte array is a function of the index;
-- the memory barriers have no effect in the model.
use zuzu.Base.{ℕ, ◌+◌, ◌-◌, ◌%◌, ◌^◌, ◌&&◌, ltb, leb, if◌then◌else◌}
use Prim.Native.Nat.{min}

abbrev pub word : ℕ
word = 2 ^ 32

pub record Hdr : Type 0 where
  pub size : ℕ
  pub head : ℕ
  pub tail : ℕ

unfoldable pub ring_init : ℕ → Hdr
ring_init size = record { size = size; head = 0; tail = 0 }

abbrev pub load_head : Hdr → ℕ
load_head r = r.head

abbrev pub load_tail : Hdr → ℕ
load_tail r = r.tail

abbrev pub publish_head : Hdr → ℕ → Hdr
publish_head r head = record r { head = head }

abbrev pub publish_tail : Hdr → ℕ → Hdr
publish_tail r tail = record r { tail = tail }

-- `head - tail` of 32-bit words.
abbrev pub distance : ℕ → ℕ → ℕ
distance head tail = (head + word - tail) % word

unfoldable pub ring_avail : Hdr → ℕ
ring_avail r =
    let avail = distance (load_head r) r.tail in if ltb r.size avail then r.size else avail

unfoldable pub ring_free : Hdr → ℕ
ring_free r =
    let avail = distance r.head (load_tail r) in if ltb r.size avail then 0 else r.size - avail

-- `memcpy(dst + to, src + from, n)`.
unfoldable pub blit : (ℕ → ℕ) → ℕ → (ℕ → ℕ) → ℕ → ℕ → ℕ → ℕ
blit dst to src from n k = if leb to k && ltb k (to + n) then src (from + (k - to)) else dst k

-- The bytes up to the end of the data area; `pos & (size - 1)` is `pos % size`, since the size is a
-- power of two.
abbrev pub first_part : ℕ → ℕ → ℕ → ℕ
first_part size pos n = min n (size - pos % size)

unfoldable pub write_at : (ℕ → ℕ) → ℕ → ℕ → (ℕ → ℕ) → ℕ → ℕ → ℕ
write_at data_area size pos src n =
    let first = first_part size pos n in
    blit (blit data_area (pos % size) src 0 first) 0 src first (n - first)

unfoldable pub read_at : (ℕ → ℕ) → ℕ → ℕ → (ℕ → ℕ) → ℕ → ℕ → ℕ
read_at data_area size pos dst n =
    let first = first_part size pos n in
    blit (blit dst 0 data_area (pos % size) first) first data_area 0 (n - first)

-- The number of bytes written, the header and the data area.
unfoldable pub ring_push : Hdr → (ℕ → ℕ) → (ℕ → ℕ) → ℕ → ℕ × (Hdr × (ℕ → ℕ))
ring_push r data_area src len =
    let cap = ring_free r in
    let n = if ltb cap len then cap else len in
    (n, (publish_head r ((r.head + n) % word), write_at data_area r.size r.head src n))

-- The number of bytes read, the header and the buffer.
unfoldable pub ring_pop : Hdr → (ℕ → ℕ) → (ℕ → ℕ) → ℕ → ℕ × (Hdr × (ℕ → ℕ))
ring_pop r data_area dst len =
    let cap = ring_avail r in
    let n = if ltb cap len then cap else len in
    (n, (publish_tail r ((r.tail + n) % word), read_at data_area r.size r.tail dst n))
