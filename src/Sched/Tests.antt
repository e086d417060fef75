-- ===== src/Sched/Tests.antt =====
-- The theorems of `Sched` at a state with three ready tasks and a running one.
use zuzu.Base.{ℕ, zero, suc, ◌≡◌, refl, false, some, [], ◌∷◌, arith, ◌==◌, if◌then◌else◌}
use zuzu.Sched.Defs.{
  Task, Sched, erase, push_task, preempt, enqueue_task, enqueue, sched_add, pick_next,
  remove_run_queue, wait_queue_add,
}
use zuzu.Base.Bits.{test_bit-zero}
use zuzu.Sched.Ready.{IsReady}
use zuzu.Sched.Order.{ready_order}
use zuzu.Sched.Pick.{order, Picked, pick_next-Picked, remove_run_queue-order}
use zuzu.Sched.Enqueue.{Enqueued, refused, added, enqueue-Enqueued}
use zuzu.Sched.Wait.{IsPlaced, none_waits, falls, nil, cons, wait_queue_add-IsPlaced}

-- Tasks 1 and 3 have priority 2, task 2 has 5 and the running task 0 has 1.
abbrev prio_of : ℕ → ℕ
prio_of zero = 1
prio_of (suc n) = if n == 1 then 5 else 2

abbrev idle_task : ℕ → Task
idle_task t = record {
  priority = prio_of t;
  queued_prio = 0;
  linked = false;
  suspended = false;
  owner_frozen = false;
}

abbrev booted : Sched
booted = record {
  run_queues = λ p. [];
  ready_mask = 0;
  tasks = idle_task;
  current = some 0;
  do_resched = false;
  in_tick = false;
  slice_armed = false;
  calls = [];
}

booted-IsReady : IsReady booted
booted-IsReady = record {
  masked = λ p. test_bit-zero p;
  bounded = λ p high. refl;
  recorded = λ p t h. absurd (omega arith);
  once = λ p t. omega arith;
}

after_enqueue-IsReady :
    (s : Sched) (t k : ℕ) (s' : Sched) → IsReady s → Enqueued s t k s' → IsReady s'
after_enqueue-IsReady s t k _ r (refused why) = r
after_enqueue-IsReady s t k s' r (added _ live free out ins on resched r') = r'

abbrev one_ready : Sched
one_ready = sched_add booted (some 1)

abbrev two_ready : Sched
two_ready = sched_add one_ready (some 2)

abbrev three_ready : Sched
three_ready = sched_add two_ready (some 3)

sched_add-IsReady : (s : Sched) (t : ℕ) → IsReady s → IsReady (sched_add s (some t))
unfolding sched_add
sched_add-IsReady s t r = after_enqueue-IsReady s t _ _ r (enqueue-Enqueued s t false r)

two_ready-IsReady : IsReady two_ready
two_ready-IsReady = sched_add-IsReady one_ready 2 (sched_add-IsReady booted 1 booted-IsReady)

three_ready-IsReady : IsReady three_ready
three_ready-IsReady = sched_add-IsReady two_ready 3 two_ready-IsReady

-- Tasks leave in the order of their priority, and 1 before 3.
picks_in_order : order three_ready ≡ 2 ∷ 1 ∷ 3 ∷ []
unfolding ready_order sched_add enqueue enqueue_task preempt push_task
picks_in_order = refl

pick_next-Picked_example : Picked three_ready (pick_next three_ready)
pick_next-Picked_example = pick_next-Picked three_ready three_ready-IsReady

enqueue-Enqueued_example : Enqueued two_ready 3 2 (enqueue two_ready (some 3) false)
unfolding sched_add enqueue enqueue_task preempt push_task
enqueue-Enqueued_example = enqueue-Enqueued two_ready 3 false two_ready-IsReady

remove_run_queue-order_example :
    IsReady (remove_run_queue three_ready 1)
    × ((((remove_run_queue three_ready 1).tasks 1).linked ≡ false)
        × (order (remove_run_queue three_ready 1) ≡ erase 1 (order three_ready)))
remove_run_queue-order_example = remove_run_queue-order three_ready 1 three_ready-IsReady

wait_queue_add-IsPlaced_example :
    IsPlaced prio_of (2 ∷ 1 ∷ []) (wait_queue_add prio_of (2 ∷ 1 ∷ []) 3) 3
wait_queue_add-IsPlaced_example =
    wait_queue_add-IsPlaced prio_of (2 ∷ 1 ∷ []) 3
      (falls (cons (omega arith) nil) (falls nil none_waits))
