-- ===== src/Net/Frames/Tests.antt =====
-- The theorems of `Net.Frames` at a small ring.
use zuzu.Base.{ℕ, ◌≤◌, ◌≡◌, refl, some, List, [], ◌∷◌, arith}
use zuzu.Base.{length, replicate}
use zuzu.Net.Frames.{Frame, Ring, push}
use zuzu.Net.Frames.Fifo.{IsRing, Pushed, push-Pushed, contents, window}

abbrev blank : Frame
blank = record { len = 0; bytes = replicate 1536 0 }

abbrev short : Frame
short = record { len = 3; bytes = 1 ∷ 2 ∷ 3 ∷ replicate 1533 0 }

-- Slots 15 and 0 hold a frame each.
abbrev wrapped : Ring
wrapped = record { slots = λ i. short; head = 1; tail = 15 }

wrapped-IsRing : IsRing wrapped
wrapped-IsRing = record { head_in = omega arith; tail_in = omega arith }

contents-wrapped : contents wrapped ≡ (1 ∷ 2 ∷ 3 ∷ []) ∷ (1 ∷ 2 ∷ 3 ∷ []) ∷ []
unfolding window
contents-wrapped = refl

enough : (bytes : List ℕ) → some (4 ∷ 5 ∷ []) ≡ some bytes → 2 ≤ length bytes
enough (x ∷ y ∷ rest) e = omega arith
enough (x ∷ []) e = absurd (ground arith)
enough [] e = absurd (ground arith)

push-Pushed_example : Pushed wrapped (some (4 ∷ 5 ∷ [])) 2 (push wrapped (some (4 ∷ 5 ∷ [])) 2)
push-Pushed_example = push-Pushed wrapped (some (4 ∷ 5 ∷ [])) 2 wrapped-IsRing enough
