-- ===== src/Ipc/Events.antt =====
-- The bits of an event, kernel/ipc/event.c: EventTake, EventBindBit and EventUnbindBit.
use zuzu.Base.{ℕ, ◌+◌, ◌-◌, Bool, ◌&&◌, ◌||◌, ltb, leb, ◌==◌, if◌then◌else◌}
use Prim.Native.Nat.{bit_and}
use zuzu.Base.Bits.{set_bit, clear_bit}

-- The fields of an EventObject that count the observers of each bit.
pub record Event : Type 0 where
  pub bound_mask : ℕ
  pub bound_refs : ℕ → ℕ

abbrev pub max_refs : ℕ
max_refs = 65535

-- The bits of `word` that satisfy a waiter for `mask`; 0 where none do.
unfoldable pub event_take : ℕ → ℕ → Bool → ℕ
event_take word mask all =
    let hit = bit_and word mask in if all then (if hit == mask then mask else 0) else hit

unfoldable pub bind_bit : Event → ℕ → Event
bind_bit ev bit = if leb 31 bit then ev else record {
  bound_mask = set_bit ev.bound_mask bit;
  bound_refs = λ b.
      if bit == b && ltb (ev.bound_refs b) max_refs then ev.bound_refs b + 1 else ev.bound_refs b;
}

unfoldable pub unbind_bit : Event → ℕ → Event
unbind_bit ev bit = if leb 31 bit || ev.bound_refs bit == 0 then ev else record {
  bound_mask = if ev.bound_refs bit - 1 == 0 then clear_bit ev.bound_mask bit else ev.bound_mask;
  bound_refs = λ b. if bit == b then ev.bound_refs b - 1 else ev.bound_refs b;
}
