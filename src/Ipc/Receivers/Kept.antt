-- ===== src/Ipc/Receivers/Kept.antt =====
-- The invariant of the receiver queues, and the writes that keep it.
use zuzu.Base.{
  ℕ, ◌≡◌, ap, ◌∙◌, true, false, Option, none, arith, ◌==◌, if◌then◌else◌, inl, inr, Bool-cases,
  is_some,
}
use zuzu.Sched.Tasks.{count}
use zuzu.Handle.Defs.{HandleTable, Refs}
use zuzu.Ipc.Calls.Defs.{Port, Task, Kernel, Effect, names, on_task, on_port, calls}

pub record AreReceivers (k : Kernel) : Type 0 where
  pub queue :
      (p t : ℕ)
      → count t (k.ports p).receiver_queue ≡ (if names (k.tasks t).wait_port p then 1 else 0)
  pub free : (t : ℕ) → is_some (k.tasks t).wait_port ≡ true → (k.tasks t).reply_cap ≡ none
  pub rests : (t : ℕ) → is_some (k.tasks t).wait_port ≡ true → (k.tasks t).waiting ≡ false

-- From `k` to `k'` the invariant is kept, and a task that does not receive does not start to.
pub record Kept (k k' : Kernel) : Type 0 where
  pub inv : AreReceivers k → AreReceivers k'
  pub idle : (t : ℕ) → (k.tasks t).wait_port ≡ none → (k'.tasks t).wait_port ≡ none

pub Kept-self : (k : Kernel) → Kept k k
Kept-self k = record { inv = λ a. a; idle = λ t h. h }

pub Kept-trans : {k k' k'' : Kernel} → Kept k k' → Kept k' k'' → Kept k k''
Kept-trans a b = record { inv = λ r. b.inv (a.inv r); idle = λ t h. b.idle t (a.idle t h) }

pub Kept-calls : (k : Kernel) (e : Effect) → Kept k (calls k e)
Kept-calls k e = record {
  inv = λ a. record { queue = a.queue; free = a.free; rests = a.rests };
  idle = λ t h. h;
}

pub Kept-tables :
    (k : Kernel) (tables : ℕ → HandleTable) (refs : Refs)
    → Kept k (record k { tables = tables; refs = refs })
Kept-tables k tables refs = record {
  inv = λ a. record { queue = a.queue; free = a.free; rests = a.rests };
  idle = λ t h. h;
}

-- A write to a port that keeps its receivers.
pub Kept-port :
    (k : Kernel) (p : ℕ) (f : Port → Port)
    → (f (k.ports p)).receiver_queue ≡ (k.ports p).receiver_queue
    → Kept k (on_port k p f)
Kept-port k p f h = record {
  inv = λ a. record {
    queue = λ q t. elim (Bool-cases (p == q)) [
      | inl same ↦ let z : p ≡ q = ground arith in rw same (ap (count t) h ∙ a.queue p t ∙ rw z)
      | inr other ↦ rw other (a.queue q t)
    ];
    free = a.free;
    rests = a.rests;
  };
  idle = λ t h. h;
}

-- What a write to a task `x` must keep: the wait slot; and for a receiver, that it serves nothing and
-- is in no call.
pub record Gentle (x y : Task) : Type 0 where
  pub slot : y.wait_port ≡ x.wait_port
  pub free : is_some x.wait_port ≡ true → x.reply_cap ≡ none → y.reply_cap ≡ none
  pub rests : is_some x.wait_port ≡ true → x.waiting ≡ false → y.waiting ≡ false

pub Kept-task :
    (k : Kernel) (t : ℕ) (f : Task → Task)
    → Gentle (k.tasks t) (f (k.tasks t))
    → Kept k (on_task k t f)
Kept-task k t f g = record {
  inv = λ a. record {
    queue = λ p u. elim (Bool-cases (t == u)) [
      | inl same ↦ let z : u ≡ t = ground arith in rw same (a.queue p u ∙ rw (g.slot, z))
      | inr other ↦ rw other (a.queue p u)
    ];
    free = λ u. elim (Bool-cases (t == u)) [
      | inl same ↦ rw same (λ h. let i = rw g.slot at h in g.free i (a.free t i))
      | inr other ↦ rw other (a.free u)
    ];
    rests = λ u. elim (Bool-cases (t == u)) [
      | inl same ↦ rw same (λ h. let i = rw g.slot at h in g.rests i (a.rests t i))
      | inr other ↦ rw other (a.rests u)
    ];
  };
  idle = λ u h. elim (Bool-cases (t == u)) [
    | inl same ↦ let z : u ≡ t = ground arith in rw same (g.slot ∙ rw (← z) h)
    | inr other ↦ rw other h
  ];
}

-- A write that keeps the wait slot, the reply capability and whether the task is in a call.
pub gentle :
    {x y : Task}
    → y.wait_port ≡ x.wait_port
    → y.reply_cap ≡ x.reply_cap
    → y.waiting ≡ x.waiting
    → Gentle x y
gentle a b c = record { slot = a; free = λ i h. b ∙ h; rests = λ i h. c ∙ h }

-- Any other write to a task that does not receive, which keeps its wait slot.
pub Gentle-idle : {x y : Task} → x.wait_port ≡ none → y.wait_port ≡ x.wait_port → Gentle x y
Gentle-idle e s = record {
  slot = s;
  free = λ i. absurd (cc (i, ap (λ (o : Option ℕ). is_some o) e));
  rests = λ i. absurd (cc (i, ap (λ (o : Option ℕ). is_some o) e));
}
