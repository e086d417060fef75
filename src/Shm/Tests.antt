-- ===== src/Shm/Tests.antt =====
-- The theorems of `Shm` at a ring of 8 bytes whose counters have wrapped.
use zuzu.Base.{ℕ, ◌+◌, refl, arith}
use zuzu.Shm.Ring.{Hdr, ring_push, ring_pop}
use zuzu.Shm.Bytes.{IsRing, Pushed, ring_push-Pushed, Popped, ring_pop-Popped}

-- Four bytes are in the ring, in the places 6, 7, 0 and 1.
abbrev wrapped : Hdr
wrapped = record { size = 8; head = 2; tail = 4294967294 }

wrapped-IsRing : IsRing wrapped
wrapped-IsRing = record {
  some_size = omega arith;
  size_in = omega arith;
  divides = refl;
  head_in = omega arith;
  tail_in = omega arith;
  fits = omega arith;
}

abbrev bytes : ℕ → ℕ
bytes i = 10 + i

ring_push-Pushed_example : Pushed wrapped bytes bytes 6 (ring_push wrapped bytes bytes 6)
ring_push-Pushed_example = ring_push-Pushed wrapped bytes bytes 6 wrapped-IsRing

ring_pop-Popped_example : Popped wrapped bytes bytes 3 (ring_pop wrapped bytes bytes 3)
ring_pop-Popped_example = ring_pop-Popped wrapped bytes bytes 3 wrapped-IsRing
