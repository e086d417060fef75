-- ===== src/Ipc/CallTests.antt =====
-- A call, its receipt, its reply, its hold and the end of the port, between two tasks over the port 7.
use zuzu.Base.{ℕ, ◌-◌, ◌^◌, ◌≡◌, refl, true, false, none, some, [], ◌∷◌, arith, set, replicate}
use zuzu.Base.Bits.{test_bit}
use zuzu.Handle.Defs.{HandleType, Entry, zero_entry, HandleTable, table_get, lookup, handle_index}
use zuzu.Sched.Defs.{put_back, walk, wait_queue_add}
use zuzu.Ipc.Calls.Defs.{TaskState, Task, Port, Kernel, ok, fail, err_noent}
use zuzu.Ipc.Calls.Grant.{validate_call_port, validate_grant, allocate_grant_slot}
use zuzu.Ipc.Calls.Message.{svc_call, port_receive}
use zuzu.Ipc.Calls.Held.{ticket_index, port_hold_current, port_take_held}
use zuzu.Ipc.Calls.Reply.{svc_reply}
use zuzu.Ipc.Links.Answer.{Answered}
use zuzu.Ipc.Receivers.Killing.{IsSound}
use zuzu.Ipc.Receivers.Woken.{IsWoken}
use zuzu.Ipc.Receivers.Ended.{queued, port_kill-IsWoken}
use zuzu.Ipc.Links.Queue.{queued_place}
use zuzu.Ipc.Calls.Kill.{port_kill}
use zuzu.Sched.Tasks.{count}
use zuzu.Ipc.Interleaving.{
  IsRunning, IsNew, call, receive, Reach, here, next, Reach-IsSound, svc_reply-Answered,
}
use zuzu.Ipc.Tickets.{WaitsThrough, port_take_held-port_hold_current, port_take_held-again}

abbrev new_task : ℕ → Task
new_task t = record {
  tid = t;
  state = TaskState.running;
  owner = t;
  priority = 1;
  frame = record { r0 = 0; r1 = 0; r2 = 0; r3 = 0 };
  buf = some (replicate 8 t);
  waiting = false;
  blocked_port = none;
  reply_cap_storage = record { caller_task = none; caller_tid = 0 };
  pending_grant_handle = none;
  pending_reply_cap = none;
  reply_cap = none;
  reply_holder = none;
  msg_xfer_len = 0;
  port_marker = 0;
  wait_port = none;
  serving_port = none;
  serving_handle = 0;
  held_port = none;
  held_slot = 0;
}

abbrev new_port : Port
new_port = record {
  alive = true;
  sender_queue = [];
  receiver_queue = [];
  active_servers = [];
  held = none;
}

abbrev port_entry : Entry
port_entry = record zero_entry { type = HandleType.port; perms = 7; object = 7; marker = 9 }

abbrev port_table : HandleTable
port_table = record {
  blocks = some (set (replicate 64 zero_entry) 0 port_entry) ∷ replicate 15 none;
  slot_bitmap = 1 ∷ replicate 31 0;
}

abbrev boot : Kernel
boot = record {
  tasks = new_task;
  ports = λ p. new_port;
  tables = λ s. port_table;
  refs = λ o. 1;
  effects = [];
}

boot-IsNew : IsNew boot
boot-IsNew = record {
  rests = λ t. refl;
  holder = λ t. refl;
  held_at = λ t. refl;
  cap = λ t. refl;
  idle = λ t. refl;
  senders = λ p. refl;
  receivers = λ p. refl;
  held = λ p. refl;
}

abbrev called : Kernel
called = svc_call true false boot 1 0 4 none (2 ^ 32 - 1)

abbrev received : Kernel
received = port_receive (λ c. true) called 2 7 5

called-IsRunning : IsRunning called 2
unfolding svc_call lookup test_bit wait_queue_add validate_call_port validate_grant walk put_back
called-IsRunning = record { rests = refl; idle = refl }

received-Reach : Reach boot received
received-Reach =
    next
      (next here (call true false 1 0 4 none (2 ^ 32 - 1) (record { rests = refl; idle = refl })))
      (receive (λ c. true) 2 7 5 called-IsRunning)

Reach-IsSound_example : IsSound received
Reach-IsSound_example = Reach-IsSound boot-IsNew received-Reach

serves_first : (received.tasks 2).reply_cap ≡ some 1
unfolding svc_call port_receive lookup test_bit wait_queue_add validate_call_port validate_grant
    walk put_back allocate_grant_slot
serves_first = refl

svc_reply-Answered_example :
    Answered received (svc_reply true (λ c. true) received 2 4 none none 0) 1
svc_reply-Answered_example =
    svc_reply-Answered true (λ c. true) received 2 1 4 none
      (Reach-IsSound boot-IsNew received-Reach) serves_first (omega arith)

-- The first four bytes of the server's buffer are those of the caller.
message_copied : (received.tasks 2).buf ≡ some (1 ∷ 1 ∷ 1 ∷ 1 ∷ 2 ∷ 2 ∷ 2 ∷ 2 ∷ [])
unfolding svc_call port_receive lookup test_bit wait_queue_add validate_call_port validate_grant
    walk put_back allocate_grant_slot
message_copied = refl

abbrev on_hold : Kernel
on_hold = (port_hold_current true received 2).1

serves_port : (received.tasks 2).serving_port ≡ some 7
unfolding svc_call port_receive lookup test_bit wait_queue_add validate_call_port validate_grant
    walk put_back allocate_grant_slot
serves_port = refl

ticket_given : (port_hold_current true received 2).0 ≡ ok 65536
unfolding svc_call port_receive port_hold_current lookup test_bit wait_queue_add validate_call_port
    validate_grant walk put_back allocate_grant_slot
ticket_given = refl

third_waits : WaitsThrough on_hold 3 (handle_index (received.tasks 2).serving_handle) 7
unfolding svc_call port_receive port_hold_current lookup test_bit wait_queue_add validate_call_port
    validate_grant walk put_back allocate_grant_slot table_get handle_index
third_waits = record { entry = port_entry; at = refl; port = refl; object = refl; waits = refl }

third_waits_again : WaitsThrough on_hold 3 (ticket_index 65536) 7
unfolding svc_call port_receive port_hold_current lookup test_bit wait_queue_add validate_call_port
    validate_grant walk put_back allocate_grant_slot table_get ticket_index
third_waits_again = record {
  entry = port_entry;
  at = refl;
  port = refl;
  object = refl;
  waits = refl;
}

port_take_held-again_example :
    (port_take_held (port_take_held on_hold 3 65536).1 3 65536).0 ≡ fail err_noent
port_take_held-again_example = port_take_held-again on_hold 3 65536 7 1 refl third_waits_again (
    port_take_held-port_hold_current true received 2 7 1 65536 3
      (Reach-IsSound boot-IsNew received-Reach).linked serves_first serves_port refl ticket_given
      third_waits)

called-Reach : Reach boot called
called-Reach =
    next here (call true false 1 0 4 none (2 ^ 32 - 1) (record { rests = refl; idle = refl }))

waits_in_queue : count 1 (called.ports 7).sender_queue ≡ 1
unfolding svc_call lookup test_bit wait_queue_add validate_call_port validate_grant walk put_back
waits_in_queue = refl

port_lives : (called.ports 7).alive ≡ true
unfolding svc_call lookup test_bit wait_queue_add validate_call_port validate_grant walk put_back
port_lives = refl

port_kill-IsWoken_example : IsWoken called (port_kill called 7) 1
port_kill-IsWoken_example =
    let s = Reach-IsSound boot-IsNew called-Reach in
    port_kill-IsWoken called 7 1 s port_lives
      (queued (queued_place (s.linked 1).place 7 (s.linked 1).at (omega (arith, waits_in_queue))))
