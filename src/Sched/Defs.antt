-- ===== src/Sched/Defs.antt =====
-- kernel/sched/sched.c: SchedEnqueue, SchedPickNext, SchedAnyCpuTakers, SchedRemoveRunQueue,
-- SchedWaitQueueAdd and SchedWaitQueueAddTask. A task is named by a number, and an intrusive list
-- (list.h) is the list of the tasks in it, first to last.
use zuzu.Base.{
  ℕ, zero, suc, ◌-◌, Bool, true, false, ◌&&◌, not, Option, none, some, List, [], ◌∷◌, ◌++◌, ltb,
  leb, ◌==◌, if◌then◌else◌,
}
use zuzu.Base.Bits.{test_bit, set_bit, clear_bit, low_bits}

-- The fields of a TaskObject that the queues use. `linked` is `node.next || node.prev`, which list.h
-- sets and clears together; `owner_frozen` is `owner && owner->frozen`.
pub record Task : Type 0 where
  pub priority : ℕ
  pub queued_prio : ℕ
  pub linked : Bool
  pub suspended : Bool
  pub owner_frozen : Bool

-- Calls of parts of the scheduler that are not modelled.
pub data Call : Type 0 where
  arm_timer : Call

-- The static state of sched.c; `current` is `current_task`.
pub record Sched : Type 0 where
  pub run_queues : ℕ → List ℕ
  pub ready_mask : ℕ
  pub tasks : ℕ → Task
  pub current : Option ℕ
  pub do_resched : Bool
  pub in_tick : Bool
  pub slice_armed : Bool
  pub calls : List Call

abbrev pub priority_levels : ℕ
priority_levels = 8

abbrev pub prio_default : ℕ
prio_default = 1

-- `f[k] = v`.
abbrev pub update {ℓ} : {A : Type ℓ} → (ℕ → A) → ℕ → A → ℕ → A
update f k v j = if k == j then v else f j

abbrev pub is_empty : List ℕ → Bool
is_empty [] = true
is_empty (x ∷ xs) = false

-- ListRemove, from the list that the task is in.
unfoldable pub erase : ℕ → List ℕ → List ℕ
erase t [] = []
erase t (x ∷ xs) = if t == x then xs else x ∷ erase t xs

abbrev pub run_level : ℕ → ℕ
run_level priority = if leb priority_levels priority then prio_default else priority

abbrev pub link : Task → ℕ → Task
link k level = record k { queued_prio = level; linked = true }

abbrev pub unlink : Task → Task
unlink k = record k { linked = false }

-- The queue part of SchedEnqueue, past its guards.
unfoldable pub push_task : Sched → ℕ → Bool → ℕ → Sched
push_task s t front level = record s {
  tasks = update s.tasks t (link (s.tasks t) level);
  run_queues =
      update s.run_queues level
        (if front then t ∷ s.run_queues level else s.run_queues level ++ (t ∷ []));
  ready_mask = set_bit s.ready_mask level;
}

-- Its two requests, against the running task.
unfoldable pub preempt : Sched → ℕ → Option ℕ → Sched
preempt s t none = s
preempt s t (some c) =
    let p = (s.tasks t).priority in
    let running = (s.tasks c).priority in
    let arm = not s.in_tick && (not (t == c) && (not s.slice_armed && leb running p)) in
    record s {
      do_resched = if ltb running p then true else s.do_resched;
      calls = if arm then arm_timer ∷ s.calls else s.calls;
    }

unfoldable pub enqueue_task : Sched → ℕ → Bool → Sched
enqueue_task s t front =
    let k = s.tasks t in
    if k.owner_frozen
    then s
    else if k.suspended
    then s
    else if k.linked
    then s
    else preempt (push_task s t front (run_level k.priority)) t s.current

unfoldable pub enqueue : Sched → Option ℕ → Bool → Sched
enqueue s none front = s
enqueue s (some t) front = enqueue_task s t front

unfoldable pub sched_add : Sched → Option ℕ → Sched
sched_add s t = enqueue s t false

unfoldable pub sched_add_front : Sched → Option ℕ → Sched
sched_add_front s t = enqueue s t true

-- ListPopFront or ListRemove of `t`, which leaves `rest` in the queue of `level`, and the test of
-- the queue after it.
unfoldable pub take_out : Sched → ℕ → ℕ → List ℕ → Sched
take_out s level t rest = record s {
  run_queues = update s.run_queues level rest;
  tasks = update s.tasks t (unlink (s.tasks t));
  ready_mask = if is_empty rest then clear_bit s.ready_mask level else s.ready_mask;
}

-- One turn of SchedPickNext's loop whose mask bit is set; `continued` is the rest of the loop.
unfoldable pub pick_level : Sched → ℕ → List ℕ → Option ℕ × Sched → Option ℕ × Sched
pick_level s level [] continued = continued
pick_level s level (t ∷ rest) continued = (some t, take_out s level t rest)

-- The loop over the levels below `n`, without DEBUG's panic; `none` is the idle task.
unfoldable pub pick_from : ℕ → Sched → Option ℕ × Sched
pick_from zero s = (none, s)
pick_from (suc level) s =
    let cleared = pick_from level (record s { ready_mask = clear_bit s.ready_mask level }) in
    let below = pick_from level s in
    if test_bit s.ready_mask level then pick_level s level (s.run_queues level) cleared else below

unfoldable pub pick_next : Sched → Option ℕ × Sched
pick_next s = pick_from priority_levels s

-- `mask & ~((1U << p) - 1U)` takes the low bits away.
unfoldable pub any_takers : Sched → Option ℕ → Bool
any_takers s none = false
any_takers s (some t) =
    let p = (s.tasks t).priority in
    let level = if leb priority_levels p then priority_levels - 1 else p in
    not (s.ready_mask - low_bits s.ready_mask level == 0)

unfoldable pub remove_run_queue : Sched → ℕ → Sched
remove_run_queue s t =
    let k = s.tasks t in
    if not k.linked then s else take_out s k.queued_prio t (erase t (s.run_queues k.queued_prio))

-- The two wait queue insertions walk from the tail while the task met has a lower priority: `before`
-- is the part not yet met, last first, and `after` the part passed. The pointer from a wait slot
-- to its queue is left out.
module _ (priority : ℕ → ℕ) where
  unfoldable pub put_back : List ℕ → List ℕ → List ℕ
  put_back [] after = after
  put_back (x ∷ before) after = put_back before (x ∷ after)

  unfoldable pub walk : ℕ → List ℕ → List ℕ → List ℕ
  walk t [] after = t ∷ after
  walk t (x ∷ before) after =
      let further = walk t before (x ∷ after) in
      if ltb (priority x) (priority t) then further else put_back (x ∷ before) (t ∷ after)

  unfoldable pub wait_queue_add : List ℕ → ℕ → List ℕ
  wait_queue_add q t = walk t (put_back q []) []
