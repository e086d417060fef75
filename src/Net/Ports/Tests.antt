-- ===== src/Net/Ports/Tests.antt =====
-- The theorems of `Net.Ports` at an empty table and at one with two ports.
use zuzu.Base.{ℕ, zero, suc, ◌≡◌, refl, ◌≢◌, false, ◌∷◌, arith, ◌==◌}
use zuzu.Base.{replicate}
use zuzu.Net.Ports.{Ports, port_init, port_alloc}
use zuzu.Net.Ports.Count.{count}
use zuzu.Net.Ports.Alloc.{IsPorts, Allotted, port_alloc-Allotted}

none_held : (n p : ℕ) → p ≢ 0 → count p (replicate n 0) ≡ 0
none_held zero p nz = refl
none_held (suc n) p nz = let other : (0 == p) ≡ false = ground arith in rw other (none_held n p nz)

port_init-IsPorts : IsPorts port_init
unfolding port_init
port_init-IsPorts = record {
  entries = refl;
  once = λ p nz. omega (arith, none_held 64 p nz);
  cursor = omega arith;
}

-- DHCP's port 68 and one at the end of the range.
abbrev two_held : Ports
two_held = record { held = 68 ∷ 65535 ∷ replicate 62 0; next_ephemeral = 65535 }

two_held-IsPorts : IsPorts two_held
two_held-IsPorts = record {
  entries = refl;
  once = λ p nz. ground (arith, none_held 62 p nz);
  cursor = omega arith;
}

port_alloc-Allotted_example : Allotted two_held (port_alloc two_held)
port_alloc-Allotted_example = port_alloc-Allotted two_held two_held-IsPorts
