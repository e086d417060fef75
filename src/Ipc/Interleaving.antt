-- ===== src/Ipc/Interleaving.antt =====
-- The steps of the kernel that calls take part in, in any order: system calls of running tasks,
-- timeouts, the end of a port, and writes that change no call. The end of a task is not a step.
use zuzu.Base.{
  ℕ, ◌≤◌, ◌≡◌, refl, sym, ap, Bool, false, Option, none, some, [], arith, le→ltb_false, List, ◌∷◌,
  inl, inr, Bool-cases, ◌==◌,
}
use mathlib.Core.Path.{subst}
use zuzu.Sched.Tasks.{count}
use zuzu.Handle.Defs.{HandleTable, Refs}
use zuzu.Ipc.Calls.Defs.{
  TaskState, Kernel, on_task, on_port, names, is_zombie, with_senders, with_receivers, msg_buf_size,
}
use zuzu.Ipc.Calls.Waits.{wake_timed_out}
use zuzu.Ipc.Calls.Message.{svc_call, port_receive}
use zuzu.Ipc.Calls.Held.{svc_hold}
use zuzu.Ipc.Calls.Reply.{answer_current, answer_by, reply_end, reply_on, svc_reply}
use zuzu.Ipc.Calls.Kill.{port_kill}
use zuzu.Ipc.Links.Place.{nowhere, with_server, IsAt, Same}
use zuzu.Ipc.Links.Cancel.{wake_timed_out-IsLinked, same-IsLinked}
use zuzu.Ipc.Links.Queue.{set_r0-Same}
use zuzu.Ipc.Links.Call.{HeadServes, svc_call-IsLinked}
use zuzu.Ipc.Links.Receive.{port_receive-IsLinked}
use zuzu.Ipc.Links.HoldIn.{served_by}
use zuzu.Ipc.Links.Hold.{svc_hold-IsLinked}
use zuzu.Ipc.Links.Answer.{Answered, Answered-Same, answer-Answered, answerable-served}
use zuzu.Ipc.Links.Replying.{svc_reply-IsLinked}
use zuzu.Ipc.Links.Frames.{plain, Same-quiet, Same-queue}
use zuzu.Ipc.Receivers.Kept.{AreReceivers, Kept-port}
use zuzu.Ipc.Receivers.Others.{with_priority, with_state, state-Quiet, tables-Same, reordered}
use zuzu.Ipc.Receivers.Ends.{plain-Kept, wake_timed_out-Kept}
use zuzu.Ipc.Receivers.Calling.{port_receive-AreReceivers, svc_call-Kept}
use zuzu.Ipc.Receivers.Answers.{svc_reply-AreReceivers}
use zuzu.Ipc.Receivers.Holding.{svc_hold-Kept}
use zuzu.Ipc.Receivers.Killing.{IsSound, slot_of_first, is_some_of_names, port_kill-IsSound}

-- A task that can make a system call: it waits for no answer and in no receiver queue.
pub record IsRunning (k : Kernel) (t : ℕ) : Type 0 where
  pub rests : (k.tasks t).waiting ≡ false
  pub idle : (k.tasks t).wait_port ≡ none

-- The system calls of running tasks, timeouts, the ends of ports, and what else may happen between them:
-- a task gets another priority, queues are put in another order, the scheduler changes the state of a
-- task that does not end, and other system calls write the handle tables and the reference counts.
pub data Step (k : Kernel) : Kernel → Type 0 where
  call :
      (memory queued : Bool) (t h xlen : ℕ) (grant : Option ℕ) (timeout : ℕ)
      → IsRunning k t
      → Step k (svc_call memory queued k t h xlen grant timeout)
  receive :
      (memory : ℕ → Bool) (t p timeout : ℕ)
      → IsRunning k t
      → Step k (port_receive memory k t p timeout)
  reply :
      (memory : Bool) (growth : ℕ → Bool) (t xlen : ℕ) (grant receive_on : Option ℕ) (r3 : ℕ)
      → IsRunning k t
      → Step k (svc_reply memory growth k t xlen grant receive_on r3)
  hold : (memory : Bool) (t : ℕ) → IsRunning k t → Step k (svc_hold memory k t)
  time_out : (t : ℕ) → Step k (wake_timed_out k t)
  kill : (p : ℕ) → Step k (port_kill k p)
  set_priority : (t priority : ℕ) → Step k (on_task k t (with_priority priority))
  set_state :
      (t : ℕ) (state : TaskState)
      → is_zombie state ≡ false
      → Step k (on_task k t (with_state state))
  reorder_senders :
      (p : ℕ) (q : List ℕ)
      → ((d : ℕ) → count d q ≡ count d (k.ports p).sender_queue)
      → Step k (on_port k p (with_senders q))
  reorder_receivers :
      (p : ℕ) (q : List ℕ)
      → ((d : ℕ) → count d q ≡ count d (k.ports p).receiver_queue)
      → Step k (on_port k p (with_receivers q))
  set_tables :
      (tables : ℕ → HandleTable) (refs : Refs) → Step k (record k { tables = tables; refs = refs })

-- A kernel whose tasks are as TaskCreate leaves them, as far as calls go, and whose ports are as
-- PortCreate leaves them.
pub record IsNew (k : Kernel) : Type 0 where
  pub rests : (t : ℕ) → (k.tasks t).waiting ≡ false
  pub holder : (t : ℕ) → (k.tasks t).reply_holder ≡ none
  pub held_at : (t : ℕ) → (k.tasks t).held_port ≡ none
  pub cap : (t : ℕ) → (k.tasks t).reply_cap ≡ none
  pub idle : (t : ℕ) → (k.tasks t).wait_port ≡ none
  pub senders : (p : ℕ) → (k.ports p).sender_queue ≡ []
  pub receivers : (p : ℕ) → (k.ports p).receiver_queue ≡ []
  pub held : (p : ℕ) → (k.ports p).held ≡ none

pub data Reach (start : Kernel) : Kernel → Type 0 where
  here : Reach start start
  next : {k k' : Kernel} → Reach start k → Step k k' → Reach start k'

new-IsSound : (k : Kernel) → IsNew k → IsSound k
new-IsSound k n = record {
  linked = λ c. record {
    place = nowhere;
    at = record {
      waits = n.rests c;
      holder = n.holder c;
      held_at = n.held_at c;
      local = tt;
      object = λ h. absurd (cc);
      queue = λ p. ap (count c) (n.senders p);
      caps = λ s. ap (λ o. names o c) (n.cap s);
      calls_held = λ p i. rw (n.held p);
      tids = λ p i h. absurd (cc);
    };
  };
  receivers = record {
    queue = λ p t. rw (n.receivers p, n.idle t);
    free = λ t h. n.cap t;
    rests = λ t h. n.rests t;
  };
}

-- The first receiver of a port can serve a running task.
head_serves :
    (k : Kernel) (t p : ℕ) (q : List ℕ)
    → AreReceivers k
    → IsRunning k t
    → (k.ports p).receiver_queue ≡ q
    → HeadServes k q t
head_serves k t p [] a r e = tt
head_serves k t p (rx ∷ rest) a r e =
    let there = slot_of_first k p rx rest a e in
    let receives = is_some_of_names (k.tasks rx).wait_port p there in
    record {
      free = a.free rx receives;
      rests = a.rests rx receives;
      other = elim (Bool-cases (t == rx)) [
        | inr other ↦ other
        | inl same ↦
            let z : t ≡ rx = ground arith in
            let nowhere_named = subst (λ u. (k.tasks u).wait_port ≡ none) z r.idle in
            absurd (cc (there, ap (λ o. names o p) nowhere_named))
      ];
    }

Step-IsSound : {k k' : Kernel} → Step k k' → IsSound k → IsSound k'
Step-IsSound {k} (call memory queued t h xlen grant timeout r) s = record {
  linked =
      svc_call-IsLinked memory queued k t h xlen grant timeout s.linked r.rests
        (λ p. head_serves k t p (k.ports p).receiver_queue s.receivers r refl);
  receivers = (svc_call-Kept memory queued k t h xlen grant timeout r.idle).inv s.receivers;
}
Step-IsSound {k} (receive memory t p timeout r) s = record {
  linked = port_receive-IsLinked memory k t p timeout s.linked;
  receivers = port_receive-AreReceivers memory k t p timeout s.receivers r.idle r.rests;
}
Step-IsSound {k} (reply memory growth t xlen grant receive_on r3 r) s = record {
  linked = svc_reply-IsLinked memory growth k t xlen grant receive_on r3 s.linked;
  receivers =
      svc_reply-AreReceivers memory growth k t xlen grant receive_on r3 s.receivers r.idle r.rests;
}
Step-IsSound {k} (hold memory t r) s = record {
  linked = svc_hold-IsLinked memory k t s.linked;
  receivers = (svc_hold-Kept memory k t).inv s.receivers;
}
Step-IsSound {k} (time_out t) s = record {
  linked = wake_timed_out-IsLinked k t s.linked;
  receivers = (wake_timed_out-Kept k t).inv s.receivers;
}
Step-IsSound {k} (kill p) s = port_kill-IsSound k p s
Step-IsSound {k} (set_priority t priority) s = record {
  linked = same-IsLinked (λ d. Same-quiet k t (with_priority priority) plain d refl) s.linked;
  receivers = (plain-Kept k t (with_priority priority) refl refl refl).inv s.receivers;
}
Step-IsSound {k} (set_state t state lives) s = record {
  linked =
      same-IsLinked
        (λ d. Same-quiet k t (with_state state) (state-Quiet (k.tasks t) state lives) d refl)
        s.linked;
  receivers = (plain-Kept k t (with_state state) refl refl refl).inv s.receivers;
}
Step-IsSound {k} (reorder_senders p q e) s = record {
  linked = same-IsLinked (λ d. Same-queue k p (with_senders q) d (e d) refl) s.linked;
  receivers = (Kept-port k p (with_senders q) refl).inv s.receivers;
}
Step-IsSound {k} (reorder_receivers p q e) s = record {
  linked = same-IsLinked (λ d. Same-queue k p (with_receivers q) d refl refl) s.linked;
  receivers = reordered k p q e s.receivers;
}
Step-IsSound {k} (set_tables tables refs) s = record {
  linked = same-IsLinked (tables-Same k tables refs) s.linked;
  receivers = record {
    queue = s.receivers.queue;
    free = s.receivers.free;
    rests = s.receivers.rests;
  };
}

-- In every state that calls, receipts, replies and holds of running tasks, timeouts, ends of ports,
-- changes of priorities, of the order of queues and of the states of tasks that do not end, and writes to
-- handle tables can lead to from a new kernel, in any order, each task is at one place: in no call, in the
-- sender queue of one port and there once, with one server, which has its reply capability, or in one
-- slot of one table of held calls; nothing else names it. Each receiver stands in one queue, once, and
-- serves no call. The end of a
-- task is not among these steps.
pub Reach-IsSound : {start k : Kernel} → IsNew start → Reach start k → IsSound k
Reach-IsSound {start} n here = new-IsSound start n
Reach-IsSound n (next r st) = Step-IsSound st (Reach-IsSound n r)

reply_end-Same :
    (growth : ℕ → Bool) (server timeout : ℕ) (r : Option ℕ × Kernel) (d : ℕ)
    → Same r.1 (reply_end growth server none timeout r) d
unfolding reply_end
reply_end-Same growth server timeout (some c, k) d = set_r0-Same k server c d
reply_end-Same growth server timeout (none, k) d = set_r0-Same k server 0 d

answer_by-Answered :
    (memory : Bool) (k : Kernel) (server xlen : ℕ) (grant : Option ℕ) (c : ℕ)
    → IsAt k c (with_server server)
    → Answered k (answer_by memory k server xlen grant false (some c)).1 c
unfolding answer_by answer_current
answer_by-Answered memory k server xlen grant c a =
    subst (λ o. Answered k (answer_current memory k server xlen grant false c o).1 c)
      (sym (a.object refl).task)
      (rw (answerable-served k server c a) (answer-Answered memory k server xlen grant c a))

-- In a sound state, a task that serves a call and replies with at most 512 bytes, without a ticket and
-- without going on to receive, ends the call whatever handle it grants: its caller is in no call any
-- more, and every other caller stays where it is.
pub svc_reply-Answered :
    (memory : Bool) (growth : ℕ → Bool) (k : Kernel) (server c xlen : ℕ) (grant : Option ℕ)
    → IsSound k
    → (k.tasks server).reply_cap ≡ some c
    → xlen ≤ msg_buf_size
    → Answered k (svc_reply memory growth k server xlen grant none 0) c
unfolding svc_reply reply_on
svc_reply-Answered memory growth k server c xlen grant s e fits =
    let a = served_by server c s.linked e in
    let done = answer_by-Answered memory k server xlen grant c a in
    rw (le→ltb_false _ _ fits) (
      subst
        (λ o.
          Answered k (reply_end growth server none 0 (answer_by memory k server xlen grant false o))
            c)
        (sym e)
        (Answered-Same done (λ d.
          reply_end-Same growth server 0 (answer_by memory k server xlen grant false (some c)) d)))
