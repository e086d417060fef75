-- ===== src/Ipc/Receivers/Others.antt =====
-- What changes between the steps of calls without a change to a call: priorities, states, handle tables
-- and the order of the receivers.
use zuzu.Base.{ℕ, ◌≡◌, refl, ◌∙◌, false, List, arith, ◌==◌, Bool-cases, inl, inr}
use zuzu.Handle.Defs.{HandleTable, Refs}
use zuzu.Sched.Tasks.{count}
use zuzu.Ipc.Calls.Defs.{TaskState, Task, Kernel, is_zombie, on_port, with_receivers}
use zuzu.Ipc.Links.Place.{Same}
use zuzu.Ipc.Links.Frames.{Quiet}
use zuzu.Ipc.Receivers.Kept.{AreReceivers}

abbrev pub with_priority : ℕ → Task → Task
with_priority priority x = record x { priority = priority }

abbrev pub with_state : TaskState → Task → Task
with_state state x = record x { state = state }

pub state-Quiet :
    (x : Task) (state : TaskState) → is_zombie state ≡ false → Quiet x (with_state state x)
state-Quiet x state lives = record {
  waits = refl;
  holder = refl;
  held_at = refl;
  slot = refl;
  tid = refl;
  lives = λ h. lives;
  blocked_at = λ h. refl;
  pending = λ h. refl;
  storage = λ h. refl;
}

pub tables-Same :
    (k : Kernel) (tables : ℕ → HandleTable) (refs : Refs) (d : ℕ)
    → Same k (record k { tables = tables; refs = refs }) d
tables-Same k tables refs d = record {
  waits = refl;
  holder = refl;
  held_at = refl;
  slot = refl;
  tid = refl;
  lives = λ h. h;
  blocked_at = λ h. refl;
  pending = λ h. refl;
  storage = λ h. refl;
  queue = λ p. refl;
  caps = λ s. refl;
  calls_held = λ p i. refl;
  tids = λ p i h. refl;
}

pub reordered :
    (k : Kernel) (p : ℕ) (q : List ℕ)
    → ((d : ℕ) → count d q ≡ count d (k.ports p).receiver_queue)
    → AreReceivers k
    → AreReceivers (on_port k p (with_receivers q))
reordered k p q e a = record {
  queue = λ r t. elim (Bool-cases (p == r)) [
    | inl same ↦ let z : p ≡ r = ground arith in rw same (e t ∙ a.queue p t ∙ rw z)
    | inr other ↦ rw other (a.queue r t)
  ];
  free = a.free;
  rests = a.rests;
}
