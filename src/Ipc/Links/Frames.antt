-- ===== src/Ipc/Links/Frames.antt =====
-- The writes that leave the place of a caller as it is.
use zuzu.Base.{ℕ, ◌≡◌, refl, sym, ap, true, false, Option, List, arith, ◌==◌, inl, inr, Bool-cases}
use mathlib.Core.Path.{subst}
use zuzu.Handle.Defs.{HandleTable, Refs}
use zuzu.Sched.Tasks.{count}
use zuzu.Ipc.Calls.Defs.{
  TaskState, Frame, Port, Task, Kernel, Effect, is_zombie, names, on_task, on_port, calls,
}
use zuzu.Ipc.Links.Place.{call_in, held_call, Same}

pub Same-calls : (k : Kernel) (e : Effect) (d : ℕ) → Same k (calls k e) d
Same-calls k e d = record {
  waits = refl;
  holder = refl;
  held_at = refl;
  slot = refl;
  tid = refl;
  lives = λ h. h;
  blocked_at = λ h. refl;
  pending = λ h. refl;
  storage = λ h. refl;
  queue = λ p. refl;
  caps = λ s. refl;
  calls_held = λ p i. refl;
  tids = λ p i h. refl;
}

pub Same-tables :
    (k : Kernel) (tables : ℕ → HandleTable) (refs : Refs) (d : ℕ)
    → Same k (record k { tables = tables; refs = refs }) d
Same-tables k tables refs d = record {
  waits = refl;
  holder = refl;
  held_at = refl;
  slot = refl;
  tid = refl;
  lives = λ h. h;
  blocked_at = λ h. refl;
  pending = λ h. refl;
  storage = λ h. refl;
  queue = λ p. refl;
  caps = λ s. refl;
  calls_held = λ p i. refl;
  tids = λ p i h. refl;
}

-- A write to another task, which keeps whether its reply capability is that of `d`.
pub Same-other :
    (k : Kernel) (t : ℕ) (f : Task → Task) (d : ℕ)
    → (t == d) ≡ false
    → names (f (k.tasks t)).reply_cap d ≡ names (k.tasks t).reply_cap d
    → Same k (on_task k t f) d
Same-other k t f d e h = record {
  waits = rw e;
  holder = rw e;
  held_at = rw e;
  slot = rw e;
  tid = rw e;
  lives = λ h. rw e h;
  blocked_at = λ w. rw e;
  pending = λ w. rw e;
  storage = λ w. rw e;
  queue = λ p. refl;
  caps = λ s. elim (Bool-cases (t == s)) [
    | inl same ↦ let q : s ≡ t = ground arith in rw same (rw q h)
    | inr other ↦ rw other
  ];
  calls_held = λ p i. refl;
  tids = λ p i w. refl;
}

-- A write to a task that keeps what places are about.
pub record Quiet (x y : Task) : Type 0 where
  pub waits : y.waiting ≡ x.waiting
  pub holder : y.reply_holder ≡ x.reply_holder
  pub held_at : y.held_port ≡ x.held_port
  pub slot : y.held_slot ≡ x.held_slot
  pub tid : y.tid ≡ x.tid
  pub lives : is_zombie x.state ≡ false → is_zombie y.state ≡ false
  pub blocked_at : x.waiting ≡ true → y.blocked_port ≡ x.blocked_port
  pub pending : x.waiting ≡ true → y.pending_reply_cap ≡ x.pending_reply_cap
  pub storage : x.waiting ≡ true → y.reply_cap_storage ≡ x.reply_cap_storage

-- Writes to the other fields are such.
pub plain :
    {x : Task} {owner priority : ℕ} {frame : Frame} {buf : Option (List ℕ)} {grant rc : Option ℕ}
    {len marker : ℕ} {wait_port serving_port : Option ℕ} {handle : ℕ}
    → Quiet x (record x {
      owner = owner;
      priority = priority;
      frame = frame;
      buf = buf;
      pending_grant_handle = grant;
      reply_cap = rc;
      msg_xfer_len = len;
      port_marker = marker;
      wait_port = wait_port;
      serving_port = serving_port;
      serving_handle = handle;
    })
plain = record {
  waits = refl;
  holder = refl;
  held_at = refl;
  slot = refl;
  tid = refl;
  lives = λ h. h;
  blocked_at = λ h. refl;
  pending = λ h. refl;
  storage = λ h. refl;
}

pub plain_blocked :
    {x : Task} {wait_port : Option ℕ}
    → Quiet x (record x { state = TaskState.blocked; wait_port = wait_port })
plain_blocked = record {
  waits = refl;
  holder = refl;
  held_at = refl;
  slot = refl;
  tid = refl;
  lives = λ h. refl;
  blocked_at = λ h. refl;
  pending = λ h. refl;
  storage = λ h. refl;
}

module _ (k : Kernel) (t : ℕ) (f : Task → Task) (q : Quiet (k.tasks t) (f (k.tasks t))) where
  Quiet-self :
      names (f (k.tasks t)).reply_cap t ≡ names (k.tasks t).reply_cap t → Same k (on_task k t f) t
  Quiet-self cap =
      let e : (t == t) ≡ true = ground arith in
      record {
        waits = rw e q.waits;
        holder = rw e q.holder;
        held_at = rw e q.held_at;
        slot = rw e q.slot;
        tid = rw e q.tid;
        lives = λ h. rw e (q.lives h);
        blocked_at = λ w. rw e (q.blocked_at w);
        pending = λ w. rw e (q.pending w);
        storage = λ w. rw e (q.storage w);
        queue = λ p. refl;
        caps = λ s. elim (Bool-cases (t == s)) [
          | inl same ↦ let z : s ≡ t = ground arith in rw same (rw z cap)
          | inr other ↦ rw other
        ];
        calls_held = λ p i. refl;
        tids = λ p i w. refl;
      }

  pub Same-quiet :
      (d : ℕ)
      → names (f (k.tasks t)).reply_cap d ≡ names (k.tasks t).reply_cap d
      → Same k (on_task k t f) d
  Same-quiet d cap = elim (Bool-cases (t == d)) [
    | inl same ↦
        let z : t ≡ d = ground arith in
        subst (λ u. Same k (on_task k t f) u) z
          (Quiet-self (
            subst (λ u. names (f (k.tasks t)).reply_cap u ≡ names (k.tasks t).reply_cap u) (sym z)
              cap))
    | inr other ↦ Same-other k t f d other cap
  ]

-- A write to a port that keeps how often `d` is in its sender queue, and its calls of `d` on hold.
pub Same-port :
    (k : Kernel) (p : ℕ) (f : Port → Port) (d : ℕ)
    → count d (f (k.ports p)).sender_queue ≡ count d (k.ports p).sender_queue
    → ((i : ℕ)
        → names (call_in (f (k.ports p)).held i).caller d
          ≡ names (call_in (k.ports p).held i).caller d)
    → ((i : ℕ)
        → names (call_in (k.ports p).held i).caller d ≡ true
        → (call_in (f (k.ports p)).held i).caller_tid ≡ (call_in (k.ports p).held i).caller_tid)
    → Same k (on_port k p f) d
Same-port k p f d queued held tids = record {
  waits = refl;
  holder = refl;
  held_at = refl;
  slot = refl;
  tid = refl;
  lives = λ h. h;
  blocked_at = λ h. refl;
  pending = λ h. refl;
  storage = λ h. refl;
  queue = λ q. elim (Bool-cases (p == q)) [
    | inl same ↦ let z : q ≡ p = ground arith in rw same (rw z queued)
    | inr other ↦ rw other
  ];
  caps = λ s. refl;
  calls_held = λ q i. elim (Bool-cases (p == q)) [
    | inl same ↦ let z : q ≡ p = ground arith in rw same (rw z (held i))
    | inr other ↦ rw other
  ];
  tids = λ q i h. elim (Bool-cases (p == q)) [
    | inl same ↦
        let z : q ≡ p = ground arith in
        rw same (rw z (tids i (rw (ap (λ r. names (held_call k r i).caller d) (sym z)) h)))
    | inr other ↦ rw other
  ];
}

-- A write to a port that keeps its table of held calls.
pub Same-queue :
    (k : Kernel) (p : ℕ) (f : Port → Port) (d : ℕ)
    → count d (f (k.ports p)).sender_queue ≡ count d (k.ports p).sender_queue
    → (f (k.ports p)).held ≡ (k.ports p).held
    → Same k (on_port k p f) d
Same-queue k p f d queued held = Same-port k p f d queued (λ i. rw held) (λ i h. rw held)
