-- ===== src/Ipc/Links/Receive.antt =====
-- PortReceive takes the first caller of a port that may pass its handle on, and wakes those before it
-- with the error of the grant.
use zuzu.Base.{
  ℕ, ◌≡◌, refl, sym, ap, ◌∙◌, Bool, false, not, Option, none, some, List, [], ◌∷◌, arith, ◌==◌, inl,
  inr, Bool-cases, ==_refl, is_some,
}
use mathlib.Core.Path.{subst}
use zuzu.Sched.Tasks.{count}
use zuzu.Ipc.Calls.Defs.{Kernel, names, on_task, calls, boost_servers, err_dead, err_busy}
use zuzu.Ipc.Calls.Waits.{abort_wait}
use zuzu.Ipc.Calls.Grant.{allocate_grant_slot, Granted, refused, granted}
use zuzu.Ipc.Calls.Message.{
  notify_pending, deliver_call, take_call, pop_sender, receive_turn, receive_from, no_grant,
  port_receive,
}
use zuzu.Ipc.Links.Place.{nowhere, with_server, IsAt, IsAt-Same, Same, Same-trans, IsLinked}
use zuzu.Ipc.Links.Frames.{plain, Same-calls, Same-quiet}
use zuzu.Ipc.Links.Ends.{abort_wait-Same, abort_wait-nowhere}
use zuzu.Ipc.Links.Cancel.{moved-IsLinked, same-IsLinked}
use zuzu.Ipc.Links.Deliver.{InTransit-Same, deliver_call-Delivered, none_of_names}
use zuzu.Ipc.Links.Queue.{
  set_r0-Same, block_on-Same, notify_pending-Same, Holds, Popped, pop_sender-Popped,
}
use zuzu.Ipc.Links.Grants.{state_of, allocate_grant_slot-Same}

-- A queued caller whose grant fails is in no call any more.
pub refused-IsLinked :
    (k k' : Kernel) (c err : ℕ)
    → IsLinked k
    → Popped k k' c
    → IsLinked (abort_wait k' c err)
      × ((d : ℕ) → (c == d) ≡ false → Same k (abort_wait k' c err) d)
      × IsAt (abort_wait k' c err) c nowhere
refused-IsLinked k k' c err l popped =
    let gone =
      abort_wait-nowhere k' c err popped.transit.unnamed popped.holder popped.transit.held_at in
    let others = λ (d : ℕ) (e : (c == d) ≡ false).
      Same-trans (popped.others d e) (abort_wait-Same k' c err d e) in
    (moved-IsLinked c l (record { place = nowhere; at = gone }) others, others, gone)

-- A caller that is taken off the queue goes to the server.
take_call-IsLinked :
    (k k' : Kernel) (server p c w : ℕ)
    → IsLinked k
    → Popped k k' c
    → (k'.tasks server).reply_cap ≡ none
    → IsAt (take_call k' server p c w) c (with_server server)
      × ((d : ℕ) → (c == d) ≡ false → Same k (take_call k' server p c w) d)
unfolding take_call
take_call-IsLinked k k' server p c w l popped free =
    let k1 = on_task k' c no_grant in
    let grant_kept = λ (d : ℕ). Same-quiet k' c no_grant plain d refl in
    let xlen = (k'.tasks c).msg_xfer_len in
    let free' : (k1.tasks server).reply_cap ≡ none =
      none_of_names _ (λ d. (grant_kept d).caps server ∙ ap (λ o. names o d) free) in
    let done =
      deliver_call-Delivered k1 c server xlen w (InTransit-Same (grant_kept c) popped.transit)
        free' in
    let taken = λ (o : Option ℕ). calls (deliver_call k1 c server o xlen w) (boost_servers p) in
    let after = λ (d : ℕ).
      Same-trans (Same-calls (deliver_call k1 c server (some c) xlen w) (boost_servers p) d)
        (notify_pending-Same (taken (some c)) p d) in
    subst
      (λ o.
        IsAt (notify_pending (taken o) p) c (with_server server)
        × ((d : ℕ) → (c == d) ≡ false → Same k (notify_pending (taken o) p) d))
      (sym popped.transit.object.pending)
      (
        IsAt-Same (after c) done.served,
        λ d e.
            Same-trans (popped.others d e)
              (Same-trans (grant_kept d) (Same-trans (done.others d e) (after d))),
      )

Holds-Same :
    {k k' : Kernel} (p : ℕ) (q : List ℕ) → ((d : ℕ) → Same k k' d) → Holds k p q → Holds k' p q
Holds-Same p q s h d = (s d).queue p ∙ h d

pub free-Same :
    {k k' : Kernel} (t : ℕ)
    → ((d : ℕ) → Same k k' d)
    → (k.tasks t).reply_cap ≡ none
    → (k'.tasks t).reply_cap ≡ none
free-Same t s free = none_of_names _ (λ d. (s d).caps t ∙ ap (λ o. names o d) free)

-- The queue after the first caller is taken off and woken.
pub left_of :
    (k : Kernel) (p c : ℕ) (rest : List ℕ) (err : ℕ)
    → IsLinked k
    → Holds k p (c ∷ rest)
    → Holds (abort_wait (pop_sender k p rest) c err) p rest
left_of k p c rest err l holds d =
    let popped = pop_sender-Popped k p c rest l holds in
    let k1 = pop_sender k p rest in
    let r = refused-IsLinked k k1 c err l popped in
    elim (Bool-cases (c == d)) [
      | inl same ↦
          let z : c ≡ d = ground arith in
          let none_left : count c rest ≡ 0 =
            sym (rw (==_refl p)) ∙ popped.transit.unnamed.queue p in
          subst (λ u. count u ((abort_wait k1 c err).ports p).sender_queue ≡ count u rest) z
            (r.2.queue p ∙ sym none_left)
      | inr other ↦
          (r.1 d other).queue p ∙ holds d ∙ (let f : (d == c) ≡ false = ground arith in rw f)
    ]

-- One turn: what it leaves when the loop ends, or a state in which the loop goes on with the rest.
receive_turn-IsLinked :
    (next : Kernel → Kernel) (server p c : ℕ) (rest : List ℕ) (g : Granted)
    → IsLinked (state_of g)
    → Holds (state_of g) p (c ∷ rest)
    → ((state_of g).tasks server).reply_cap ≡ none
    → ((k : Kernel)
        → IsLinked k
        → Holds k p rest
        → (k.tasks server).reply_cap ≡ none
        → IsLinked (next k))
    → IsLinked (receive_turn next server p c rest g)
unfolding receive_turn
receive_turn-IsLinked next server p c rest (refused err k) l holds free ih =
    let popped = pop_sender-Popped k p c rest l holds in
    let k1 = pop_sender k p rest in
    let r = refused-IsLinked k k1 c err l popped in
    let aborted = abort_wait k1 c err in
    let left : Holds aborted p rest = λ d. left_of k p c rest err l holds d in
    let free' : (aborted.tasks server).reply_cap ≡ none = none_of_names _ (λ d.
      elim (Bool-cases (c == d)) [
        | inl same ↦
            let z : c ≡ d = ground arith in
            subst (λ u. names (aborted.tasks server).reply_cap u ≡ false) z (r.2.caps server)
        | inr other ↦ (r.1 d other).caps server ∙ ap (λ o. names o d) free
      ]) in
    ih aborted r.0 left free'
receive_turn-IsLinked next server p c rest (granted w k) l holds free ih =
    let popped = pop_sender-Popped k p c rest l holds in
    let t = take_call-IsLinked k (pop_sender k p rest) server p c w l popped free in
    moved-IsLinked c l (record { place = with_server server; at = t.0 }) t.1

receive_from-IsLinked :
    (memory : ℕ → Bool) (server p timeout : ℕ) (queue : List ℕ) (k : Kernel)
    → IsLinked k
    → Holds k p queue
    → (k.tasks server).reply_cap ≡ none
    → IsLinked (receive_from memory server p timeout queue k)
unfolding receive_from
receive_from-IsLinked memory server p timeout [] k l holds free =
    same-IsLinked (λ d. block_on-Same k server p timeout d) l
receive_from-IsLinked memory server p timeout (c ∷ rest) k l holds free =
    let x = k.tasks c in
    let from = (k.tasks server).owner in
    let s =
      λ (d : ℕ). allocate_grant_slot-Same (memory c) k x.owner from x.pending_grant_handle d in
    receive_turn-IsLinked (receive_from memory server p timeout rest) server p c rest
      (allocate_grant_slot (memory c) k x.owner from x.pending_grant_handle) (same-IsLinked s l)
      (Holds-Same p (c ∷ rest) s holds) (free-Same server s free)
      (λ k' l' h' f'. receive_from-IsLinked memory server p timeout rest k' l' h' f')

pub none_of_is_some : (o : Option ℕ) → is_some o ≡ false → o ≡ none
none_of_is_some none h = refl
none_of_is_some (some x) h = absurd (cc)

-- PortReceive keeps each task at one place.
pub port_receive-IsLinked :
    (memory : ℕ → Bool) (k : Kernel) (server p timeout : ℕ)
    → IsLinked k
    → IsLinked (port_receive memory k server p timeout)
unfolding port_receive
port_receive-IsLinked memory k server p timeout l = elim (Bool-cases (not (k.ports p).alive)) [
  | inl dead ↦ rw dead (same-IsLinked (λ d. set_r0-Same k server err_dead d) l)
  | inr alive ↦ rw alive (elim (Bool-cases (is_some (k.tasks server).reply_cap)) [
    | inl busy ↦ rw busy (same-IsLinked (λ d. set_r0-Same k server err_busy d) l)
    | inr free ↦ rw free (
        receive_from-IsLinked memory server p timeout (k.ports p).sender_queue k l (λ d. refl)
          (none_of_is_some _ free))
  ])
]
