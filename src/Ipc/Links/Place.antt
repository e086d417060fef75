-- ===== src/Ipc/Links/Place.antt =====
-- The place of a caller: what its own fields say, and where the queues, the reply capabilities and the
-- tables of held calls name it. A state is linked where each task is at one place.
use zuzu.Base.{
  ℕ, ◌≡◌, refl, sym, ap, ◌∙◌, Bool, true, false, ◌&&◌, Option, none, some, ◌==◌, if◌then◌else◌,
}
use zuzu.Sched.Tasks.{count}
use zuzu.Ipc.Calls.Defs.{Reply, HeldCall, Task, Kernel, is_zombie, names}
use zuzu.Ipc.Calls.Held.{no_calls}

pub data Where : Type 0 where
  nowhere : Where
  in_queue : ℕ → Where
  with_server : ℕ → Where
  on_hold : ℕ → ℕ → Where

abbrev pub calling : Where → Bool
calling nowhere = false
calling _ = true

abbrev pub server_of : Where → Option ℕ
server_of (with_server s) = some s
server_of _ = none

abbrev pub hold_port_of : Where → Option ℕ
hold_port_of (on_hold p i) = some p
hold_port_of _ = none

abbrev pub is_queue : Where → ℕ → Bool
is_queue (in_queue p) q = p == q
is_queue _ q = false

abbrev pub is_server : Where → ℕ → Bool
is_server (with_server s) t = s == t
is_server _ t = false

abbrev pub is_hold : Where → ℕ → ℕ → Bool
is_hold (on_hold p i) q j = p == q && i == j
is_hold _ q j = false

-- What the place says of the fields `blocked_port` and `held_slot`.
abbrev pub Local : Where → Task → Type 0
Local (in_queue p) x = x.blocked_port ≡ some p
Local (on_hold p i) x = x.held_slot ≡ i
Local _ x = Unit {0}

-- A slot of the table of held calls of a port.
abbrev pub call_in : Option (ℕ → HeldCall) → ℕ → HeldCall
call_in none i = no_calls i
call_in (some h) i = h i

abbrev pub held_call : Kernel → ℕ → ℕ → HeldCall
held_call k p i = call_in (k.ports p).held i

-- The reply object of a task that is in a call, and that the task is no zombie.
pub record Object (k : Kernel) (c : ℕ) : Type 0 where
  pub pending : (k.tasks c).pending_reply_cap ≡ some c
  pub task : (k.tasks c).reply_cap_storage.caller_task ≡ some c
  pub tid : (k.tasks c).reply_cap_storage.caller_tid ≡ (k.tasks c).tid
  pub alive : is_zombie (k.tasks c).state ≡ false

pub record IsAt (k : Kernel) (c : ℕ) (w : Where) : Type 0 where
  pub waits : (k.tasks c).waiting ≡ calling w
  pub holder : (k.tasks c).reply_holder ≡ server_of w
  pub held_at : (k.tasks c).held_port ≡ hold_port_of w
  pub local : Local w (k.tasks c)
  pub object : calling w ≡ true → Object k c
  pub queue : (p : ℕ) → count c (k.ports p).sender_queue ≡ (if is_queue w p then 1 else 0)
  pub caps : (s : ℕ) → names (k.tasks s).reply_cap c ≡ is_server w s
  pub calls_held : (p i : ℕ) → names (held_call k p i).caller c ≡ is_hold w p i
  pub tids : (p i : ℕ) → is_hold w p i ≡ true → (held_call k p i).caller_tid ≡ (k.tasks c).tid

pub record Place (k : Kernel) (c : ℕ) : Type 0 where
  pub place : Where
  pub at : IsAt k c place

-- A state in which each task is at one place.
abbrev pub IsLinked : Kernel → Type 0
IsLinked k = (c : ℕ) → Place k c

-- Between two states nothing about the place of `d` changes.
pub record Same (k k' : Kernel) (d : ℕ) : Type 0 where
  pub waits : (k'.tasks d).waiting ≡ (k.tasks d).waiting
  pub holder : (k'.tasks d).reply_holder ≡ (k.tasks d).reply_holder
  pub held_at : (k'.tasks d).held_port ≡ (k.tasks d).held_port
  pub slot : (k'.tasks d).held_slot ≡ (k.tasks d).held_slot
  pub tid : (k'.tasks d).tid ≡ (k.tasks d).tid
  pub lives : is_zombie (k.tasks d).state ≡ false → is_zombie (k'.tasks d).state ≡ false
  pub blocked_at : (k.tasks d).waiting ≡ true → (k'.tasks d).blocked_port ≡ (k.tasks d).blocked_port
  pub pending :
      (k.tasks d).waiting ≡ true → (k'.tasks d).pending_reply_cap ≡ (k.tasks d).pending_reply_cap
  pub storage :
      (k.tasks d).waiting ≡ true → (k'.tasks d).reply_cap_storage ≡ (k.tasks d).reply_cap_storage
  pub queue : (p : ℕ) → count d (k'.ports p).sender_queue ≡ count d (k.ports p).sender_queue
  pub caps : (s : ℕ) → names (k'.tasks s).reply_cap d ≡ names (k.tasks s).reply_cap d
  pub calls_held : (p i : ℕ) → names (held_call k' p i).caller d ≡ names (held_call k p i).caller d
  pub tids :
      (p i : ℕ)
      → names (held_call k p i).caller d ≡ true
      → (held_call k' p i).caller_tid ≡ (held_call k p i).caller_tid

pub Same-self : (k : Kernel) (d : ℕ) → Same k k d
Same-self k d = record {
  waits = refl;
  holder = refl;
  held_at = refl;
  slot = refl;
  tid = refl;
  lives = λ h. h;
  blocked_at = λ h. refl;
  pending = λ h. refl;
  storage = λ h. refl;
  queue = λ p. refl;
  caps = λ s. refl;
  calls_held = λ p i. refl;
  tids = λ p i h. refl;
}

pub Same-trans : {k k' k'' : Kernel} {d : ℕ} → Same k k' d → Same k' k'' d → Same k k'' d
Same-trans a b = record {
  waits = b.waits ∙ a.waits;
  holder = b.holder ∙ a.holder;
  held_at = b.held_at ∙ a.held_at;
  slot = b.slot ∙ a.slot;
  tid = b.tid ∙ a.tid;
  lives = λ h. b.lives (a.lives h);
  blocked_at = λ h. b.blocked_at (a.waits ∙ h) ∙ a.blocked_at h;
  pending = λ h. b.pending (a.waits ∙ h) ∙ a.pending h;
  storage = λ h. b.storage (a.waits ∙ h) ∙ a.storage h;
  queue = λ p. b.queue p ∙ a.queue p;
  caps = λ s. b.caps s ∙ a.caps s;
  calls_held = λ p i. b.calls_held p i ∙ a.calls_held p i;
  tids = λ p i h. b.tids p i (a.calls_held p i ∙ h) ∙ a.tids p i h;
}

Local-Same :
    {k k' : Kernel} {d : ℕ} (w : Where)
    → Same k k' d
    → (k.tasks d).waiting ≡ calling w
    → Local w (k.tasks d)
    → Local w (k'.tasks d)
Local-Same nowhere s h l = tt
Local-Same (in_queue p) s h l = s.blocked_at h ∙ l
Local-Same (with_server t) s h l = tt
Local-Same (on_hold p i) s h l = s.slot ∙ l

pub IsAt-Same : {k k' : Kernel} {d : ℕ} {w : Where} → Same k k' d → IsAt k d w → IsAt k' d w
IsAt-Same {w} s a = record {
  waits = s.waits ∙ a.waits;
  holder = s.holder ∙ a.holder;
  held_at = s.held_at ∙ a.held_at;
  local = Local-Same w s a.waits a.local;
  object = λ h. record {
    pending = s.pending (a.waits ∙ h) ∙ (a.object h).pending;
    task = ap (λ (r : Reply). r.caller_task) (s.storage (a.waits ∙ h)) ∙ (a.object h).task;
    tid = ap (λ (r : Reply). r.caller_tid) (s.storage (a.waits ∙ h)) ∙ (a.object h).tid ∙ sym s.tid;
    alive = s.lives (a.object h).alive;
  };
  queue = λ p. s.queue p ∙ a.queue p;
  caps = λ t. s.caps t ∙ a.caps t;
  calls_held = λ p i. s.calls_held p i ∙ a.calls_held p i;
  tids = λ p i h. s.tids p i (a.calls_held p i ∙ h) ∙ a.tids p i h ∙ sym s.tid;
}

pub Place-Same : {k k' : Kernel} {d : ℕ} → Same k k' d → Place k d → Place k' d
Place-Same s l = record { place = l.place; at = IsAt-Same s l.at }
