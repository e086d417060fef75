-- ===== src/Shm/Bytes.antt =====
-- A byte ring is a queue of at most `size` bytes: a push adds at its end and a pop takes from its
-- front, across the end of the data area and the wrap of the counters.
use zuzu.Base.{
  ℕ, ◌+◌, ◌-◌, ◌%◌, ◌≤◌, ◌<◌, ◌≡◌, sym, ◌∙◌, ap, ◌⊎◌, inl, inr, true, false, ◌&&◌, arith, ltb, leb,
  Bool-cases,
}
use Prim.Native.Nat.{min}
use mathlib.Core.Path.{subst}
use native.Mathlib.Nat.{
  mod-lt, mod-eq_of_lt, mod-add-mod, add-mod_right, mod-mod_of_dvd, dvd_of_mod-eq-zero,
}
use zuzu.Shm.Ring.{
  word, Hdr, distance, ring_avail, ring_free, blit, write_at, read_at, ring_push, ring_pop,
}

-- The size divides the range of the counters, as a power of two does, and the ring holds no more
-- bytes than it has room for.
pub record IsRing (r : Hdr) : Type 0 where
  pub some_size : 0 < r.size
  pub size_in : r.size < word
  pub divides : word % r.size ≡ 0
  pub head_in : r.head < word
  pub tail_in : r.tail < word
  pub fits : distance r.head r.tail ≤ r.size

-- The byte at place `i` of the queue.
abbrev pub byte : Hdr → (ℕ → ℕ) → ℕ → ℕ
byte r data_area i = data_area ((r.tail + i) % r.size)

abbrev pub used : Hdr → ℕ
used r = distance r.head r.tail

-- A position `j` behind `p` lies `j` further, or at the start again.
offset :
    (s p j : ℕ)
    → 0 < s
    → j ≤ s
    → (p % s < s)
      × (((p % s + j < s) × ((p + j) % s ≡ p % s + j))
          ⊎ ((s ≤ p % s + j) × ((p + j) % s ≡ p % s + j - s)))
offset s p j pos le =
    let m : p % s < s = mod-lt p pos in
    let e = mod-add-mod p s j in
    elim (Bool-cases (ltb (p % s + j) s)) [
      | inl lt ↦
          let small : p % s + j < s = ground arith in
          let q : (p % s + j) % s ≡ p % s + j = mod-eq_of_lt small in (m, inl (small, sym e ∙ q))
      | inr ge ↦
          let large : s ≤ p % s + j = ground arith in
          let back : p % s + j - s + s ≡ p % s + j = omega arith in
          let small : p % s + j - s < s = omega arith in
          let q : (p % s + j) % s ≡ p % s + j - s =
            subst (λ v. v % s ≡ p % s + j - s) back
              (add-mod_right (p % s + j - s) s ∙ mod-eq_of_lt small) in
          (m, inr (large, sym e ∙ q))
    ]

blit-in :
    (dst : ℕ → ℕ) (to : ℕ) (src : ℕ → ℕ) (from n k i : ℕ)
    → to ≤ k
    → k < to + n
    → from + (k - to) ≡ i
    → blit dst to src from n k ≡ src i
unfolding blit
blit-in dst to src from n k i a b e =
    let test : (leb to k && ltb k (to + n)) ≡ true = ground arith in rw test (ap src e)

blit-out :
    (dst : ℕ → ℕ) (to : ℕ) (src : ℕ → ℕ) (from n k : ℕ)
    → (k < to) ⊎ (to + n ≤ k)
    → blit dst to src from n k ≡ dst k
unfolding blit
blit-out dst to src from n k out =
    let test : (leb to k && ltb k (to + n)) ≡ false = ground arith in rw test

-- A write of `n` bytes at a position whose place in the data area is `m`.
module _ (data_area src : ℕ → ℕ) (s m n : ℕ) (inside : m < s) (few : n ≤ s) where
  abbrev both : ℕ → ℕ
  both = let first = min n (s - m) in blit (blit data_area m src 0 first) 0 src first (n - first)

  both-near : (j : ℕ) → j < n → m + j < s → both (m + j) ≡ src j
  both-near j lt near =
      let first = min n (s - m) in
      blit-out (blit data_area m src 0 first) 0 src first (n - first) (m + j) (inr (omega arith))
      ∙ blit-in data_area m src 0 first (m + j) j (omega arith) (omega arith) (omega arith)

  both-far : (j : ℕ) → j < n → s ≤ m + j → both (m + j - s) ≡ src j
  both-far j lt far =
      let first = min n (s - m) in
      blit-in (blit data_area m src 0 first) 0 src first (n - first) (m + j - s) j (omega arith)
        (omega arith) (omega arith)

  both-miss : (k : ℕ) → (k < m) ⊎ (m + n ≤ k) → m + n ≤ k + s → both k ≡ data_area k
  both-miss k one two =
      let first = min n (s - m) in
      blit-out (blit data_area m src 0 first) 0 src first (n - first) k (inr (omega arith))
      ∙ blit-out data_area m src 0 first k (elim one [ inl a ↦ inl a | inr b ↦ inr (omega arith) ])

module _ (r : Hdr) (v : IsRing r) where
  -- The producer's counter stands `used` bytes behind the consumer's, seen from the data area.
  head-offset : r.head % r.size ≡ (r.tail + used r) % r.size
  head-offset =
      let h = v.head_in in
      let t = v.tail_in in
      let e : (r.tail + used r) % word ≡ r.head = omega arith in
      sym (
        sym (mod-mod_of_dvd r.size (r.tail + used r) (dvd_of_mod-eq-zero r.size v.divides))
        ∙ ap (λ h. h % r.size) e)

  -- A write of `n` bytes at the head, where they fit.
  module _ (data_area src : ℕ → ℕ) (n : ℕ) (room : used r + n ≤ r.size) where
    abbrev area : ℕ → ℕ
    area = write_at data_area r.size r.head src n

    written : (j : ℕ) → j < n → area ((r.tail + (used r + j)) % r.size) ≡ src j
    unfolding write_at
    written j lt =
        let from_head = offset r.size r.head j v.some_size (omega arith) in
        let place : (r.tail + (used r + j)) % r.size ≡ (r.head + j) % r.size =
          ap (λ q. q % r.size) (omega arith)
          ∙ sym (mod-add-mod (r.tail + used r) r.size j)
          ∙ ap (λ q. (q + j) % r.size) (sym head-offset)
          ∙ mod-add-mod r.head r.size j in
        let m = r.head % r.size in
        ap area place ∙ elim from_head.1 [
          | inl (near, e) ↦
              ap area e ∙ both-near data_area src r.size m n from_head.0 (omega arith) j lt near
          | inr (far, e) ↦
              ap area e ∙ both-far data_area src r.size m n from_head.0 (omega arith) j lt far
        ]

    kept : (i : ℕ) → i < used r → area ((r.tail + i) % r.size) ≡ data_area ((r.tail + i) % r.size)
    unfolding write_at
    kept i lt =
        let at_tail = offset r.size r.tail i v.some_size (omega arith) in
        let to_head = offset r.size r.tail (used r) v.some_size v.fits in
        let h = head-offset in
        let m = r.head % r.size in
        let inside : m < r.size = mod-lt r.head v.some_size in
        both-miss data_area src r.size m n inside (omega arith) ((r.tail + i) % r.size)
          (ground arith) (ground arith)

-- What ShmRingPush promises of the queue.
pub record Pushed (r : Hdr) (data_area src : ℕ → ℕ) (len : ℕ) (p : ℕ × (Hdr × (ℕ → ℕ)))
    : Type 0 where
  pub amount : p.0 ≡ min len (r.size - used r)
  pub grown : used p.1.0 ≡ used r + p.0
  pub fresh : (j : ℕ) → j < p.0 → byte p.1.0 p.1.1 (used r + j) ≡ src j
  pub kept : (i : ℕ) → i < used r → byte p.1.0 p.1.1 i ≡ byte r data_area i
  pub sound : IsRing p.1.0

pushed :
    (r : Hdr) (data_area src : ℕ → ℕ) (len n : ℕ)
    → IsRing r
    → n ≡ min len (r.size - used r)
    → Pushed r data_area src len
        (n, (record r { head = (r.head + n) % word }, write_at data_area r.size r.head src n))
pushed r data_area src len n v e =
    let z = v.size_in in
    let h = v.head_in in
    let t = v.tail_in in
    let f = v.fits in
    let room : used r + n ≤ r.size = omega arith in
    let grown : distance ((r.head + n) % word) r.tail ≡ used r + n = omega arith in
    record {
      amount = e;
      grown = grown;
      fresh = λ j lt. written r v data_area src n room j lt;
      kept = λ i lt. kept r v data_area src n room i lt;
      sound = record {
        some_size = v.some_size;
        size_in = z;
        divides = v.divides;
        head_in = omega arith;
        tail_in = t;
        fits = omega arith;
      };
    }

-- On a ring whose size divides 2^32 and whose counters are no further apart than the size,
-- ShmRingPush adds as many of the `len` bytes as there is room for at the end of the queue, in their
-- order, returns their number, and leaves the bytes that were in the queue as they were; the counters
-- stay no further apart than the size.
pub ring_push-Pushed :
    (r : Hdr) (data_area src : ℕ → ℕ) (len : ℕ)
    → IsRing r
    → Pushed r data_area src len (ring_push r data_area src len)
unfolding ring_push ring_free
ring_push-Pushed r data_area src len v =
    let f = v.fits in
    let cap : (ltb r.size (used r)) ≡ false = ground arith in
    rw cap (pushed r data_area src len _ v (ground arith))

-- A read of `n` bytes at a position whose place in the data area is `m`.
module _ (data_area dst : ℕ → ℕ) (s m n : ℕ) (inside : m < s) (few : n ≤ s) where
  abbrev taken : ℕ → ℕ
  taken =
      let first = min n (s - m) in blit (blit dst 0 data_area m first) first data_area 0 (n - first)

  taken-near : (j : ℕ) → j < n → m + j < s → taken j ≡ data_area (m + j)
  taken-near j lt near =
      let first = min n (s - m) in
      blit-out (blit dst 0 data_area m first) first data_area 0 (n - first) j (inl (omega arith))
      ∙ blit-in dst 0 data_area m first j (m + j) (omega arith) (omega arith) (omega arith)

  taken-far : (j : ℕ) → j < n → s ≤ m + j → taken j ≡ data_area (m + j - s)
  taken-far j lt far =
      let first = min n (s - m) in
      blit-in (blit dst 0 data_area m first) first data_area 0 (n - first) j (m + j - s)
        (omega arith) (omega arith) (omega arith)

  taken-beyond : (k : ℕ) → n ≤ k → taken k ≡ dst k
  taken-beyond k out =
      let first = min n (s - m) in
      blit-out (blit dst 0 data_area m first) first data_area 0 (n - first) k (inr (omega arith))
      ∙ blit-out dst 0 data_area m first k (inr (omega arith))

-- What ShmRingPop promises of the queue.
pub record Popped (r : Hdr) (data_area dst : ℕ → ℕ) (len : ℕ) (p : ℕ × (Hdr × (ℕ → ℕ)))
    : Type 0 where
  pub amount : p.0 ≡ min len (used r)
  pub shrunk : used p.1.0 ≡ used r - p.0
  pub first : (j : ℕ) → j < p.0 → p.1.1 j ≡ byte r data_area j
  pub beyond : (k : ℕ) → p.0 ≤ k → p.1.1 k ≡ dst k
  pub rest : (i : ℕ) → byte p.1.0 data_area i ≡ byte r data_area (p.0 + i)
  pub sound : IsRing p.1.0

popped :
    (r : Hdr) (data_area dst : ℕ → ℕ) (len n : ℕ)
    → IsRing r
    → n ≡ min len (used r)
    → Popped r data_area dst len
        (n, (record r { tail = (r.tail + n) % word }, read_at data_area r.size r.tail dst n))
unfolding read_at
popped r data_area dst len n v e =
    let z = v.size_in in
    let h = v.head_in in
    let t = v.tail_in in
    let f = v.fits in
    let m = r.tail % r.size in
    let inside : m < r.size = mod-lt r.tail v.some_size in
    let few : n ≤ r.size = omega arith in
    let shrunk : distance r.head ((r.tail + n) % word) ≡ used r - n = omega arith in
    record {
      amount = e;
      shrunk = shrunk;
      first = λ j lt.
          let place = offset r.size r.tail j v.some_size (omega arith) in
          elim place.1 [
            | inl (near, q) ↦
                taken-near data_area dst r.size m n inside few j lt near ∙ sym (ap data_area q)
            | inr (far, q) ↦
                taken-far data_area dst r.size m n inside few j lt far ∙ sym (ap data_area q)
          ];
      beyond = λ k out. taken-beyond data_area dst r.size m n inside few k out;
      rest = λ i. ap data_area (
          sym (mod-add-mod ((r.tail + n) % word) r.size i)
          ∙ ap (λ q. (q + i) % r.size)
              (mod-mod_of_dvd r.size (r.tail + n) (dvd_of_mod-eq-zero r.size v.divides))
          ∙ mod-add-mod (r.tail + n) r.size i
          ∙ ap (λ q. q % r.size) (omega arith));
      sound = record {
        some_size = v.some_size;
        size_in = z;
        divides = v.divides;
        head_in = h;
        tail_in = omega arith;
        fits = omega arith;
      };
    }

-- On a ring whose size divides 2^32 and whose counters are no further apart than the size, ShmRingPop
-- takes as many bytes from the front of the queue as it holds, `len` at most, writes them in their
-- order to the buffer and nothing behind them, returns their number, and leaves the others in the
-- queue; the counters stay no further apart than the size.
pub ring_pop-Popped :
    (r : Hdr) (data_area dst : ℕ → ℕ) (len : ℕ)
    → IsRing r
    → Popped r data_area dst len (ring_pop r data_area dst len)
unfolding ring_pop ring_avail
ring_pop-Popped r data_area dst len v =
    let f = v.fits in
    let cap : (ltb r.size (used r)) ≡ false = ground arith in
    rw cap (popped r data_area dst len _ v (ground arith))
