-- ===== src/Net/Frames/Fifo.antt =====
-- The frame ring is a queue of at most 15 payloads.
use zuzu.Base.{
  ℕ, zero, suc, ◌+◌, ◌-◌, ◌%◌, ◌^◌, ◌≤◌, ◌<◌, ◌≡◌, refl, ◌∙◌, ap, ◌≢◌, ◌⊎◌, inl, inr, true, false,
  Option, none, some, List, [], ◌∷◌, ◌++◌, arith, ltb, ◌==◌, Bool-cases,
}
use zuzu.Base.{length, take, drop}
use zuzu.Net.Frames.{
  frame_size, ring_depth, Frame, Ring, Code, ok, overflow, bad_arg, buf_full, buf_empty, update,
  copy, next, is_full, store, commit, push,
}

pub record IsRing (r : Ring) : Type 0 where
  pub head_in : r.head < ring_depth
  pub tail_in : r.tail < ring_depth

-- The bytes of a slot, as many as its length says when it is read as a uint16_t.
abbrev pub payload : Frame → List ℕ
payload f = take (f.len % 2 ^ 16) f.bytes

abbrev pub used : ℕ → ℕ → ℕ
used head tail = (head + ring_depth - tail) % ring_depth

-- The payloads of the `n` slots from `t` on.
unfoldable pub window : (ℕ → Frame) → ℕ → ℕ → List (List ℕ)
window f t zero = []
window f t (suc n) = payload (f t) ∷ window f (next t) n

-- The queue that the ring holds.
abbrev pub contents : Ring → List (List ℕ)
contents r = window r.slots r.tail (used r.head r.tail)

window-last :
    (f : ℕ → Frame) (n t : ℕ)
    → t < ring_depth
    → window f t (suc n) ≡ window f t n ++ (payload (f ((t + n) % ring_depth)) ∷ [])
unfolding window
window-last f zero t h = let e : (t + 0) % ring_depth ≡ t = omega arith in rw e
window-last f (suc n) t h =
    let e : (next t + n) % ring_depth ≡ (t + suc n) % ring_depth = omega arith in
    ap (λ r. payload (f t) ∷ r)
      (window-last f n (next t) (omega arith)
        ∙ ap (λ i. window f (next t) n ++ (payload (f i) ∷ [])) e)

window-update :
    (f : ℕ → Frame) (k : ℕ) (v : Frame) (n t : ℕ)
    → ((i : ℕ) → i < n → (t + i) % ring_depth ≢ k)
    → t < ring_depth
    → window (update f k v) t n ≡ window f t n
unfolding window
window-update f k v zero t far h = refl
window-update f k v (suc n) t far h =
    let here : t ≢ k = λ e. far 0 (omega arith) (omega arith) in
    let other : (k == t) ≡ false = ground arith in
    rw (
      other,
      window-update f k v n (next t) (λ i lt e. far (suc i) (omega arith) (omega arith))
          (omega arith),
    )

take-copied : (n : ℕ) (src dst : List ℕ) → n ≤ length src → take n (copy dst src n) ≡ take n src
take-copied n src dst h = from n src (drop n dst) h
  where
    from : (n : ℕ) (xs ys : List ℕ) → n ≤ length xs → take n (take n xs ++ ys) ≡ take n xs
    from zero xs ys h = refl
    from (suc n) [] ys h = absurd (omega arith)
    from (suc n) (x ∷ xs) ys h = ap (λ r. x ∷ r) (from n xs ys (omega arith))

length-window : (f : ℕ → Frame) (n t : ℕ) → length (window f t n) ≡ n
unfolding window
length-window f zero t = refl
length-window f (suc n) t = ap suc (length-window f n (next t))

-- What PacketRingPush promises of the queue.
pub data Pushed (r : Ring) (src : Option (List ℕ)) (len : ℕ) : Code × Ring → Type 0 where
  refused : (src ≡ none) ⊎ (frame_size < len) → Pushed r src len (overflow, r)
  no_room : length (contents r) ≡ ring_depth - 1 → Pushed r src len (buf_full, r)
  pushed :
      (bytes : List ℕ) (r' : Ring)
      → src ≡ some bytes
      → len ≤ frame_size
      → length (contents r) < ring_depth - 1
      → contents r' ≡ contents r ++ (take len bytes ∷ [])
      → IsRing r'
      → Pushed r src len (ok, r')

store-contents :
    (r : Ring) (src : List ℕ) (len : ℕ)
    → IsRing r
    → len ≤ frame_size
    → len ≤ length src
    → is_full r ≡ false
    → contents (commit (store r src len)) ≡ contents r ++ (take len src ∷ [])
unfolding store commit
store-contents r src len i fits enough room =
    let h = i.head_in in
    let t = i.tail_in in
    let n = used r.head r.tail in
    let grown : used (next r.head) r.tail ≡ suc n = ground arith in
    let f' =
      update r.slots r.head (record { len = len; bytes = copy (r.slots r.head).bytes src len }) in
    let end : (r.tail + n) % ring_depth ≡ r.head = omega arith in
    let same : (r.head == r.head) ≡ true = ground arith in
    let short : len % 2 ^ 16 ≡ len = omega arith in
    let old =
      window-update r.slots r.head
        (record { len = len; bytes = copy (r.slots r.head).bytes src len }) n r.tail
        (λ k lt e. absurd (omega arith)) t in
    rw grown (
      window-last f' n r.tail t
      ∙ rw (end, same, short, take-copied len src (r.slots r.head).bytes enough)
          (ap (λ w. w ++ (take len src ∷ [])) old))

-- On a ring whose head and tail are slot numbers, PacketRingPush adds the first `len` bytes at the
-- end of the queue; it refuses a null source and a
-- length above the frame size, and has no room exactly where the queue holds 15 payloads. A refusal
-- leaves the ring as it was. The source is assumed to have `len` bytes.
pub push-Pushed :
    (r : Ring) (src : Option (List ℕ)) (len : ℕ)
    → IsRing r
    → ((bytes : List ℕ) → src ≡ some bytes → len ≤ length bytes)
    → Pushed r src len (push r src len)
unfolding push
push-Pushed r none len i enough = refused (inl refl)
push-Pushed r (some src) len i enough =
    let h = i.head_in in
    let t = i.tail_in in
    let n = length-window r.slots (used r.head r.tail) r.tail in
    elim (Bool-cases (ltb frame_size len)) [
      | inl long ↦ rw long (refused (inr (ground arith)))
      | inr fits ↦ elim (Bool-cases (is_full r)) [
        | inl full ↦ rw (fits, full) (no_room (ground (arith, n)))
        | inr room ↦
            rw (fits, room)
              (pushed src _ refl (ground arith) (ground (arith, n))
                (store-contents r src len i (ground arith) (enough src refl) room)
                (unfold commit store in record { head_in = omega arith; tail_in = t }))
      ]
    ]

-- What PacketRingPop promises of the queue.
pub data Popped (dst : Option Frame) (r : Ring) : Code × (Option Frame × Ring) → Type 0 where
  no_target : dst ≡ none → Popped dst r (bad_arg, (none, r))
  drained : contents r ≡ [] → Popped dst r (buf_empty, (dst, r))
  skipped :
      (r' : Ring) (bad : List ℕ)
      → frame_size < (r.slots r.tail).len % 2 ^ 16
      → contents r ≡ bad ∷ contents r'
      → IsRing r'
      → Popped dst r (overflow, (dst, r'))
  popped :
      (f : Frame) (r' : Ring)
      → contents r ≡ payload f ∷ contents r'
      → f.len ≤ frame_size
      → IsRing r'
      → Popped dst r (ok, (some f, r'))
