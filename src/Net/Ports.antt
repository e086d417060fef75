-- ===== src/Net/Ports.antt =====
-- netd's local port allocator, user/services/netd/transport/port.c.
use zuzu.Base.{
  ℕ, zero, suc, ◌+◌, ◌-◌, ◌*◌, ◌/◌, ◌%◌, ◌^◌, ◌≤◌, ◌<◌, ◌≡◌, refl, sym, ◌∙◌, ap, ◌≢◌, ◌↔◌, ◌⊎◌, inl,
  inr, Bool, true, false, not, ◌&&◌, ◌||◌, Option, none, some, List, [], ◌∷◌, ◌++◌, map, arith, ltb,
  leb, ◌==◌, if◌then◌else◌, Bool-cases, Option-cases,
}
use zuzu.Base.{replicate}
use mathlib.Core.Option
pub mod Count
pub mod Alloc
pub mod Tests

abbrev pub ephemeral_min : ℕ
ephemeral_min = 49152

abbrev pub ephemeral_max : ℕ
ephemeral_max = 65535

abbrev pub max_held : ℕ
max_held = 64

-- The static state: the held ports, 0 where an entry is free, and the cursor.
pub record Ports : Type 0 where
  pub held : List ℕ
  pub next_ephemeral : ℕ

unfoldable pub port_init : Ports
port_init = record { held = replicate max_held 0; next_ephemeral = ephemeral_min }

unfoldable pub is_held : List ℕ → ℕ → Bool
is_held [] port = false
is_held (h ∷ held) port = if h == port then true else is_held held port

-- The first entry that is `old` becomes `new`; `none` where there is none.
unfoldable pub replace : List ℕ → ℕ → ℕ → Option (List ℕ)
replace [] old new = none
replace (h ∷ held) old new =
    let rest = Option.map (λ r. h ∷ r) (replace held old new) in
    if h == old then some (new ∷ held) else rest

-- `none` is false.
unfoldable pub hold : List ℕ → ℕ → Option (List ℕ)
hold held port = replace held 0 port

unfoldable pub port_reserve : Ports → ℕ → Option Ports
port_reserve s port =
    if port == 0 || is_held s.held port
    then none
    else Option.map (λ held. record s { held = held }) (hold s.held port)

abbrev pub advance : ℕ → ℕ
advance port = if port == ephemeral_max then ephemeral_min else (port + 1) % 2 ^ 16

-- One turn of PortAlloc's loop: `taken` is what `hold` returns, `rest` what the later turns do.
unfoldable pub try_port : Ports → ℕ → Option (List ℕ) → ℕ × Ports → ℕ × Ports
try_port s port none rest = rest
try_port s port (some held) rest = (port, record s { held = held })

-- `turns` turns of the loop. The result 0 is no port.
unfoldable pub alloc_loop : ℕ → Ports → ℕ × Ports
alloc_loop zero s = (0, s)
alloc_loop (suc turns) s =
    let port = s.next_ephemeral in
    let s1 : Ports = record s { next_ephemeral = advance port } in
    let rest = alloc_loop turns s1 in
    if is_held s.held port then rest else try_port s1 port (hold s.held port) rest

unfoldable pub port_alloc : Ports → ℕ × Ports
port_alloc s = alloc_loop (ephemeral_max - ephemeral_min + 1) s

unfoldable pub port_release : Ports → ℕ → Ports
port_release s port = elim (replace s.held port 0) [
  | none ↦ s
  | some held ↦ record s { held = held }
]
