-- ===== src/Ipc/Calls/Kill.antt =====
-- The end of a port, kernel/ipc/port.c: PortKill.
use zuzu.Base.{ℕ, zero, suc, ◌+◌, false, not, Option, none, some, List, [], ◌∷◌, if◌then◌else◌}
use zuzu.Ipc.Calls.Defs.{
  HeldCall, Port, Kernel, on_task, on_port, calls, err_dead, held_slots, notify, recompute_priority,
  no_wait_slot, not_serving, not_held, with_receivers, with_servers,
}
use zuzu.Ipc.Calls.Waits.{abort_wait, drop_held}
use zuzu.Ipc.Calls.Message.{pop_sender}

-- The loop over the senders.
unfoldable pub kill_senders : Kernel → ℕ → List ℕ → Kernel
unfolding abort_wait
kill_senders k p [] = k
kill_senders k p (t ∷ rest) = kill_senders (abort_wait (pop_sender k p rest) t err_dead) p rest

-- ListPopFront of the first receiver, whose wait slot is then in no queue.
abbrev pub pop_receiver : Kernel → ℕ → ℕ → List ℕ → Kernel
pop_receiver k p t rest = on_task (on_port k p (with_receivers rest)) t no_wait_slot

unfoldable pub kill_receivers : Kernel → ℕ → List ℕ → Kernel
unfolding abort_wait
kill_receivers k p [] = k
kill_receivers k p (t ∷ rest) =
    kill_receivers (abort_wait (pop_receiver k p t rest) t err_dead) p rest

-- The loop over the active servers.
unfoldable pub kill_servers : Kernel → ℕ → List ℕ → Kernel
kill_servers k p [] = k
kill_servers k p (t ∷ rest) =
    let k1 = on_port k p (with_servers rest) in
    let k2 = on_task k1 t not_serving in kill_servers (calls k2 (recompute_priority t)) p rest

-- One turn of the loop over the held calls.
unfoldable pub kill_held_call : Kernel → ℕ → ℕ → Option ℕ → Kernel
unfolding drop_held abort_wait
kill_held_call k p slot none = k
kill_held_call k p slot (some c) = abort_wait (on_task (drop_held k p slot) c not_held) c err_dead

-- The caller in a slot of the table, if the port has one.
unfoldable pub caller_in : Option (ℕ → HeldCall) → ℕ → Option ℕ
caller_in none slot = none
caller_in (some h) slot = (h slot).caller

-- The loop over the held calls from slot `i` on, of which `n` are left.
unfoldable pub kill_held : Kernel → ℕ → ℕ → ℕ → Kernel
unfolding kill_held_call caller_in
kill_held k p zero i = k
kill_held k p (suc n) i =
    kill_held (kill_held_call k p i (caller_in (k.ports p).held i)) p n (i + 1)

unfoldable pub kill_queues : Kernel → ℕ → Kernel
unfolding kill_senders kill_receivers kill_servers kill_held
kill_queues k p =
    let k1 = kill_senders k p (k.ports p).sender_queue in
    let k2 = kill_receivers k1 p (k1.ports p).receiver_queue in
    let k3 = kill_servers k2 p (k2.ports p).active_servers in kill_held k3 p held_slots 0

abbrev pub killed : Port → Port
killed q = record q { alive = false }

-- `PortKill`. Without a table of held calls its last loop finds no caller.
unfoldable pub port_kill : Kernel → ℕ → Kernel
unfolding kill_queues
port_kill k p =
    if not (k.ports p).alive then k else calls (kill_queues (on_port k p killed) p) (notify p)
