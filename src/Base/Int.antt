-- ===== src/Base/Int.antt =====
-- Signed integers over the native numbers: `negsuc n` is -(n + 1).
use Prim.Native.Nat.{ℕ, ◌-◌, ◌%◌, ◌^◌}
use zuzu.Base.Tests.{ltb, leb, if◌then◌else◌}

pub data ℤ : Type 0 where
  pos : ℕ → ℤ
  negsuc : ℕ → ℤ

-- a - b, as an integer.
abbrev pub sub_ℕ : ℕ → ℕ → ℤ
sub_ℕ a b = if leb b a then pos (a - b) else negsuc (b - a - 1)

-- A word of `bits` bits, read in two's complement.
abbrev pub to_signed : ℕ → ℕ → ℤ
to_signed bits w =
    let u = w % 2 ^ bits in if ltb u (2 ^ (bits - 1)) then pos u else negsuc (2 ^ bits - 1 - u)
