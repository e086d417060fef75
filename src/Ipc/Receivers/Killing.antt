-- ===== src/Ipc/Receivers/Killing.antt =====
-- PortKill keeps each task at one place and the invariant of the receiver queues.
use zuzu.Base.{
  ℕ, zero, suc, ◌+◌, ◌≡◌, refl, sym, ap, ◌∙◌, true, false, not, Option, none, some, List, [], ◌∷◌,
  arith, ◌==◌, if◌then◌else◌, inl, inr, Bool-cases, ==_refl, is_some,
}
use mathlib.Core.Path.{subst}
use zuzu.Sched.Tasks.{count}
use zuzu.Ipc.Calls.Defs.{
  HeldCall, Port, Kernel, on_task, on_port, calls, names, err_dead, held_slots, notify,
  recompute_priority, no_wait_slot, not_serving, not_held, with_receivers, with_servers, no_pending,
  set_r0, with_senders,
}
use zuzu.Ipc.Calls.Waits.{leave_queue, abort_wait, drop_held, sched_unblock}
use zuzu.Ipc.Calls.Message.{pop_sender}
use zuzu.Ipc.Calls.Kill.{
  kill_senders, pop_receiver, kill_receivers, kill_servers, kill_held_call, caller_in, kill_held,
  kill_queues, killed, port_kill,
}
use zuzu.Ipc.Links.Place.{nowhere, call_in, held_call, Same, Same-trans, IsLinked}
use zuzu.Ipc.Links.Frames.{plain, Same-calls, Same-quiet, Same-queue}
use zuzu.Ipc.Links.Ends.{Unnamed-nowhere, abort_wait-Same, abort_wait-nowhere}
use zuzu.Ipc.Links.Cancel.{moved-IsLinked, same-IsLinked, freed_hold, resting}
use zuzu.Ipc.Links.Parts.{names-other}
use zuzu.Ipc.Links.Queue.{Holds, pop_sender-Popped}
use zuzu.Ipc.Links.Receive.{refused-IsLinked, left_of}
use zuzu.Ipc.Links.Replying.{held_by}
use zuzu.Ipc.Receivers.Kept.{AreReceivers, Kept-trans, Kept-calls, Kept-port}
use zuzu.Ipc.Receivers.Ends.{plain-Kept, abort_wait-Kept, drop_held-Kept}

-- Both invariants of the calls.
pub record IsSound (k : Kernel) : Type 0 where
  pub linked : IsLinked k
  pub receivers : AreReceivers k

pub kill_senders-IsSound :
    (k : Kernel) (p : ℕ) (q : List ℕ) → IsSound k → Holds k p q → IsSound (kill_senders k p q)
unfolding kill_senders
kill_senders-IsSound k p [] s h = s
kill_senders-IsSound k p (t ∷ rest) s h =
    let k1 = pop_sender k p rest in
    let r = refused-IsLinked k k1 t err_dead s.linked (pop_sender-Popped k p t rest s.linked h) in
    let kept =
      Kept-trans (Kept-port k p (with_senders rest) refl) (abort_wait-Kept k1 t err_dead) in
    kill_senders-IsSound (abort_wait k1 t err_dead) p rest
      (record { linked = r.0; receivers = kept.inv s.receivers })
      (λ d. left_of k p t rest err_dead s.linked h d)

leave_ports : (k : Kernel) (t : ℕ) (o : Option ℕ) → o ≡ none → (leave_queue k t o).ports ≡ k.ports
unfolding leave_queue
leave_ports k t none e = refl
leave_ports k t (some p) e = absurd (cc)

-- A task that receives nowhere is woken without a change to a port.
abort_ports :
    (k : Kernel) (t err : ℕ) → (k.tasks t).wait_port ≡ none → (abort_wait k t err).ports ≡ k.ports
unfolding abort_wait sched_unblock
abort_ports k t err idle =
    let k1 = on_task (set_r0 k t err) t no_pending in
    leave_ports k1 t (k1.tasks t).wait_port (rw (==_refl t) idle)

pub slot_of_first :
    (k : Kernel) (p t : ℕ) (rest : List ℕ)
    → AreReceivers k
    → (k.ports p).receiver_queue ≡ t ∷ rest
    → names (k.tasks t).wait_port p ≡ true
slot_of_first k p t rest a e =
    let n : count t (t ∷ rest) ≡ suc (count t rest) = rw (==_refl t) in
    let first : (if names (k.tasks t).wait_port p then 1 else 0) ≡ suc (count t rest) =
      sym (a.queue p t) ∙ ap (count t) e ∙ n in
    elim (Bool-cases (names (k.tasks t).wait_port p)) [
      | inl there ↦ there
      | inr gone ↦ absurd (let f = rw gone at first in omega (arith, f))
    ]

-- The first receiver of a port, whose place and slot are given up.
popped_receivers :
    (k : Kernel) (p t : ℕ) (rest : List ℕ)
    → AreReceivers k
    → (k.ports p).receiver_queue ≡ t ∷ rest
    → AreReceivers (pop_receiver k p t rest)
popped_receivers k p t rest a e =
    let there = slot_of_first k p t rest a e in
    let total : count t (k.ports p).receiver_queue ≡ 1 = a.queue p t ∙ rw there in
    let first : count t (t ∷ rest) ≡ 1 = ap (count t) (sym e) ∙ total in
    let last : count t rest ≡ 0 =
      let n : count t (t ∷ rest) ≡ suc (count t rest) = rw (==_refl t) in omega (arith, first, n) in
    record {
      queue = λ q u. elim (Bool-cases (p == q)) [
        | inl same ↦
            let z : p ≡ q = ground arith in
            elim (Bool-cases (t == u)) [
              | inl me ↦
                  let y : t ≡ u = ground arith in
                  rw (same, me) (subst (λ v. count v rest ≡ 0) y last)
              | inr you ↦
                  let f : (u == t) ≡ false = ground arith in
                  let tail : count u (t ∷ rest) ≡ count u rest = rw f in
                  rw (same, you)
                    (sym tail
                      ∙ ap (count u) (sym e)
                      ∙ subst
                          (λ r.
                            count u (k.ports p).receiver_queue
                            ≡ (if names (k.tasks u).wait_port r then 1 else 0))
                          z (a.queue p u))
            ]
        | inr other ↦ elim (Bool-cases (t == u)) [
          | inl me ↦
              let y : t ≡ u = ground arith in
              let elsewhere = names-other (k.tasks t).wait_port p q there other in
              rw (other, me)
                (subst (λ v. count v (k.ports q).receiver_queue ≡ 0) y (a.queue q t ∙ rw elsewhere))
          | inr you ↦ rw (other, you) (a.queue q u)
        ]
      ];
      free = λ u. elim (Bool-cases (t == u)) [
        | inl me ↦ rw me (λ h. absurd (cc))
        | inr you ↦ rw you (a.free u)
      ];
      rests = λ u. elim (Bool-cases (t == u)) [
        | inl me ↦ rw me (λ h. absurd (cc))
        | inr you ↦ rw you (a.rests u)
      ];
    }

pub is_some_of_names : (o : Option ℕ) (p : ℕ) → names o p ≡ true → is_some o ≡ true
is_some_of_names none p h = absurd (cc)
is_some_of_names (some x) p h = refl

-- A task that is in no call is woken and moves nobody.
abort_resting :
    (k : Kernel) (t err : ℕ)
    → IsLinked k
    → (k.tasks t).waiting ≡ false
    → IsLinked (abort_wait k t err)
abort_resting k t err l rests =
    let a = resting (l t).place (l t).at rests in
    let gone = abort_wait-nowhere k t err (Unnamed-nowhere a) a.holder a.held_at in
    moved-IsLinked t l (record { place = nowhere; at = gone }) (λ d e. abort_wait-Same k t err d e)

pub pop_receiver-Same :
    (k : Kernel) (p t : ℕ) (rest : List ℕ) (d : ℕ) → Same k (pop_receiver k p t rest) d
pop_receiver-Same k p t rest d =
    Same-trans (Same-queue k p (with_receivers rest) d refl refl)
      (Same-quiet (on_port k p (with_receivers rest)) t no_wait_slot plain d refl)

-- A task in the receiver queue is in no call.
pub pop_receiver-rests :
    (k : Kernel) (p t : ℕ) (rest : List ℕ)
    → IsSound k
    → (k.ports p).receiver_queue ≡ t ∷ rest
    → ((pop_receiver k p t rest).tasks t).waiting ≡ false
pop_receiver-rests k p t rest s e =
    let there = slot_of_first k p t rest s.receivers e in
    (pop_receiver-Same k p t rest t).waits ∙ s.receivers.rests t (is_some_of_names _ p there)

-- One turn of the loop over the receivers.
pub abort_receiver-IsSound :
    (k : Kernel) (p t : ℕ) (rest : List ℕ)
    → IsSound k
    → (k.ports p).receiver_queue ≡ t ∷ rest
    → IsSound (abort_wait (pop_receiver k p t rest) t err_dead)
      × (((abort_wait (pop_receiver k p t rest) t err_dead).ports p).receiver_queue ≡ rest)
abort_receiver-IsSound k p t rest s e =
    let k1 = pop_receiver k p t rest in
    let ports = abort_ports k1 t err_dead (rw (==_refl t)) in
    (
      record {
        linked =
            abort_resting k1 t err_dead (same-IsLinked (pop_receiver-Same k p t rest) s.linked)
              (pop_receiver-rests k p t rest s e);
        receivers = (abort_wait-Kept k1 t err_dead).inv (popped_receivers k p t rest s.receivers e);
      },
      ap (λ (f : ℕ → Port). (f p).receiver_queue) ports ∙ rw (==_refl p),
    )

pub kill_receivers-IsSound :
    (k : Kernel) (p : ℕ) (q : List ℕ)
    → IsSound k
    → (k.ports p).receiver_queue ≡ q
    → IsSound (kill_receivers k p q)
unfolding kill_receivers
kill_receivers-IsSound k p [] s e = s
kill_receivers-IsSound k p (t ∷ rest) s e =
    let r = abort_receiver-IsSound k p t rest s e in
    kill_receivers-IsSound (abort_wait (pop_receiver k p t rest) t err_dead) p rest r.0 r.1

pub kill_servers-IsSound :
    (k : Kernel) (p : ℕ) (q : List ℕ) → IsSound k → IsSound (kill_servers k p q)
unfolding kill_servers
kill_servers-IsSound k p [] s = s
kill_servers-IsSound k p (t ∷ rest) s =
    let k1 = on_port k p (with_servers rest) in
    let k2 = on_task k1 t not_serving in
    let same = λ (d : ℕ). Same-trans (Same-queue k p (with_servers rest) d refl refl) (
      Same-trans (Same-quiet k1 t not_serving plain d refl)
        (Same-calls k2 (recompute_priority t) d)) in
    let kept = Kept-trans (Kept-port k p (with_servers rest) refl) (
      Kept-trans (plain-Kept k1 t not_serving refl refl refl)
        (Kept-calls k2 (recompute_priority t))) in
    kill_servers-IsSound (calls k2 (recompute_priority t)) p rest
      (record { linked = same-IsLinked same s.linked; receivers = kept.inv s.receivers })

pub kill_held_call-IsSound :
    (k : Kernel) (p slot : ℕ) (o : Option ℕ)
    → IsSound k
    → (held_call k p slot).caller ≡ o
    → IsSound (kill_held_call k p slot o)
unfolding kill_held_call
kill_held_call-IsSound k p slot none s e = s
kill_held_call-IsSound k p slot (some c) s e =
    let k1 = on_task (drop_held k p slot) c not_held in
    let f = freed_hold k c p slot (held_by p slot c s.linked e) in
    let gone = abort_wait-nowhere k1 c err_dead f.unnamed f.holder f.held_at in
    let kept = Kept-trans (drop_held-Kept k p slot) (
      Kept-trans (plain-Kept (drop_held k p slot) c not_held refl refl refl)
        (abort_wait-Kept k1 c err_dead)) in
    record {
      linked =
          moved-IsLinked c s.linked (record { place = nowhere; at = gone })
            (λ d n. Same-trans (f.others d n) (abort_wait-Same k1 c err_dead d n));
      receivers = kept.inv s.receivers;
    }

pub caller_in_lem :
    (o : Option (ℕ → HeldCall)) (slot : ℕ) → (call_in o slot).caller ≡ caller_in o slot
unfolding caller_in
caller_in_lem none slot = refl
caller_in_lem (some h) slot = refl

pub kill_held-IsSound : (k : Kernel) (p n i : ℕ) → IsSound k → IsSound (kill_held k p n i)
unfolding kill_held
kill_held-IsSound k p zero i s = s
kill_held-IsSound k p (suc n) i s =
    let o = caller_in (k.ports p).held i in
    kill_held-IsSound (kill_held_call k p i o) p n (i + 1)
      (kill_held_call-IsSound k p i o s (caller_in_lem (k.ports p).held i))

-- PortKill keeps both.
pub port_kill-IsSound : (k : Kernel) (p : ℕ) → IsSound k → IsSound (port_kill k p)
unfolding port_kill kill_queues
port_kill-IsSound k p s = elim (Bool-cases (not (k.ports p).alive)) [
  | inl dead ↦ rw dead s
  | inr alive ↦
      let k0 = on_port k p killed in
      let start : IsSound k0 = record {
        linked = same-IsLinked (λ d. Same-queue k p killed d refl refl) s.linked;
        receivers = (Kept-port k p killed refl).inv s.receivers;
      } in
      let k1 = kill_senders k0 p (k0.ports p).sender_queue in
      let k2 = kill_receivers k1 p (k1.ports p).receiver_queue in
      let k3 = kill_servers k2 p (k2.ports p).active_servers in
      let s1 = kill_senders-IsSound k0 p (k0.ports p).sender_queue start (λ d. refl) in
      let s2 = kill_receivers-IsSound k1 p (k1.ports p).receiver_queue s1 refl in
      let s3 = kill_servers-IsSound k2 p (k2.ports p).active_servers s2 in
      let s4 = kill_held-IsSound k3 p held_slots 0 s3 in
      rw alive (record {
        linked = same-IsLinked (λ d. Same-calls _ (notify p) d) s4.linked;
        receivers = (Kept-calls _ (notify p)).inv s4.receivers;
      })
]
