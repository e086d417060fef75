-- ===== src/Ipc/Receivers/Ended.antt =====
-- PortKill leaves no caller behind: its loops over the senders and over the calls on hold.
use zuzu.Base.{
  ℕ, zero, suc, ◌+◌, ◌≤◌, ◌<◌, ◌≡◌, refl, sym, ap, ◌∙◌, Bool, true, false, not, ◌&&◌, inl, inr,
  Option, none, some, List, [], ◌∷◌, arith, ◌==◌, if◌then◌else◌, Bool-cases, ==_refl,
}
use mathlib.Core.Path.{subst}
use zuzu.Sched.Tasks.{count}
use zuzu.Ipc.Calls.Defs.{
  Kernel, on_task, on_port, calls, names, err_dead, held_slots, notify, no_wait_slot, not_held,
  not_serving, with_servers, with_receivers, recompute_priority,
}
use zuzu.Ipc.Calls.Waits.{abort_wait, drop_held}
use zuzu.Ipc.Calls.Message.{pop_sender}
use zuzu.Ipc.Calls.Kill.{
  kill_senders, pop_receiver, kill_receivers, kill_servers, kill_held_call, caller_in, kill_held,
  kill_queues, killed, port_kill,
}
use zuzu.Ipc.Links.Place.{in_queue, on_hold, held_call, IsAt, Same-self, Same-trans, IsLinked}
use zuzu.Ipc.Links.Frames.{plain, Same-calls, Same-quiet, Same-queue}
use zuzu.Ipc.Links.Ends.{Unnamed-nowhere, abort_wait-Same, abort_wait-nowhere}
use zuzu.Ipc.Links.Cancel.{resting, same-IsLinked, freed_hold}
use zuzu.Ipc.Links.Queue.{Holds, pop_sender-Popped}
use zuzu.Ipc.Links.Receive.{refused-IsLinked, left_of}
use zuzu.Ipc.Links.Replying.{held_by}
use zuzu.Ipc.Receivers.Kept.{Kept-port}
use zuzu.Ipc.Receivers.Killing.{
  IsSound, abort_receiver-IsSound, pop_receiver-Same, pop_receiver-rests, kill_senders-IsSound,
  kill_receivers-IsSound, kill_servers-IsSound, kill_held_call-IsSound, caller_in_lem,
}
use zuzu.Ipc.Receivers.Woken.{
  IsWoken, Fate, stays, woken, Fate-trans, Same-Fate, no_effects, field_kept, abort-Fate,
}

-- A task that is not in a sender queue does not get there.
unqueued :
    {k k' : Kernel} {d : ℕ} (p : ℕ)
    → Fate k k' d
    → count d (k.ports p).sender_queue ≡ 0
    → count d (k'.ports p).sender_queue ≡ 0
unqueued p (stays s r) e = s.queue p ∙ e
unqueued p (woken w) e = w.at.queue p

-- A task that is not in a slot does not get there.
unheld :
    {k k' : Kernel} {d : ℕ} (p i : ℕ)
    → Fate k k' d
    → names (held_call k p i).caller d ≡ false
    → names (held_call k' p i).caller d ≡ false
unheld p i (stays s r) e = s.calls_held p i ∙ e
unheld p i (woken w) e = w.at.calls_held p i

-- The loop over the senders, and that it leaves none.
kill_senders-Fate :
    (k : Kernel) (p : ℕ) (q : List ℕ) (d : ℕ)
    → IsLinked k
    → Holds k p q
    → Fate k (kill_senders k p q) d × (count d ((kill_senders k p q).ports p).sender_queue ≡ 0)
unfolding kill_senders
kill_senders-Fate k p [] d l h =
    (Same-Fate [] (Same-self k d) refl refl (no_effects k.effects), h d)
kill_senders-Fate k p (t ∷ rest) d l h =
    let k1 = pop_sender k p rest in
    let r = refused-IsLinked k k1 t err_dead l (pop_sender-Popped k p t rest l h) in
    let turn = abort-Fate k k1 t d r.2 (r.1 d) refl refl refl in
    let loop =
      kill_senders-Fate (abort_wait k1 t err_dead) p rest d r.0
        (λ e. left_of k p t rest err_dead l h e) in
    (Fate-trans turn loop.0, loop.1)

kill_receivers-Fate :
    (k : Kernel) (p : ℕ) (q : List ℕ) (d : ℕ)
    → IsSound k
    → (k.ports p).receiver_queue ≡ q
    → Fate k (kill_receivers k p q) d
unfolding kill_receivers
kill_receivers-Fate k p [] d s e = Same-Fate [] (Same-self k d) refl refl (no_effects k.effects)
kill_receivers-Fate k p (t ∷ rest) d s e =
    let k1 = pop_receiver k p t rest in
    let l1 = same-IsLinked (pop_receiver-Same k p t rest) s.linked in
    let a = resting (l1 t).place (l1 t).at (pop_receiver-rests k p t rest s e) in
    let gone = abort_wait-nowhere k1 t err_dead (Unnamed-nowhere a) a.holder a.held_at in
    let kept =
      field_kept (λ x. x.frame) (on_port k p (with_receivers rest)) t no_wait_slot d (λ x. refl) in
    let turn =
      abort-Fate k k1 t d gone
        (λ n. Same-trans (pop_receiver-Same k p t rest d) (abort_wait-Same k1 t err_dead d n))
        (ap (λ f. f.r0) kept)
        (field_kept (λ x. x.state) (on_port k p (with_receivers rest)) t no_wait_slot d (λ x. refl))
        refl in
    let r = abort_receiver-IsSound k p t rest s e in
    Fate-trans turn (kill_receivers-Fate (abort_wait k1 t err_dead) p rest d r.0 r.1)

kill_servers-Fate : (k : Kernel) (p : ℕ) (q : List ℕ) (d : ℕ) → Fate k (kill_servers k p q) d
unfolding kill_servers
kill_servers-Fate k p [] d = Same-Fate [] (Same-self k d) refl refl (no_effects k.effects)
kill_servers-Fate k p (t ∷ rest) d =
    let k1 = on_port k p (with_servers rest) in
    let k2 = on_task k1 t not_serving in
    let same = Same-trans (Same-queue k p (with_servers rest) d refl refl) (
      Same-trans (Same-quiet k1 t not_serving plain d refl)
        (Same-calls k2 (recompute_priority t) d)) in
    Fate-trans
      (Same-Fate (recompute_priority t ∷ []) same
        (ap (λ f. f.r0) (field_kept (λ x. x.frame) k1 t not_serving d (λ x. refl)))
        (field_kept (λ x. x.state) k1 t not_serving d (λ x. refl)) refl)
      (kill_servers-Fate (calls k2 (recompute_priority t)) p rest d)

-- A turn of the loop over the held calls, after which the slot holds no call.
kill_held_call-Fate :
    (k : Kernel) (p i : ℕ) (o : Option ℕ) (d : ℕ)
    → IsLinked k
    → (held_call k p i).caller ≡ o
    → Fate k (kill_held_call k p i o) d
      × (names (held_call (kill_held_call k p i o) p i).caller d ≡ false)
unfolding kill_held_call
kill_held_call-Fate k p i none d l e =
    (Same-Fate [] (Same-self k d) refl refl (no_effects k.effects), ap (λ o. names o d) e)
kill_held_call-Fate k p i (some c) d l e =
    let k0 = drop_held k p i in
    let k1 = on_task k0 c not_held in
    let f = freed_hold k c p i (held_by p i c l e) in
    let gone = abort_wait-nowhere k1 c err_dead f.unnamed f.holder f.held_at in
    let others =
      λ (n : (c == d) ≡ false). Same-trans (f.others d n) (abort_wait-Same k1 c err_dead d n) in
    (
      abort-Fate k k1 c d gone others
          (ap (λ f. f.r0) (field_kept (λ x. x.frame) k0 c not_held d (λ x. refl)))
          (field_kept (λ x. x.state) k0 c not_held d (λ x. refl)) refl,
      elim (Bool-cases (c == d)) [
        | inl same ↦
            let z : c ≡ d = ground arith in
            subst (λ u. names (held_call (abort_wait k1 c err_dead) p i).caller u ≡ false) z
              (gone.calls_held p i)
        | inr other ↦ (others other).calls_held p i ∙ ap (λ o. names o d) e ∙ other
      ],
    )

kill_held-Fate :
    (k : Kernel) (p n i : ℕ) (d : ℕ)
    → IsSound k
    → Fate k (kill_held k p n i) d
      × ((j : ℕ) → i ≤ j → j < i + n → names (held_call (kill_held k p n i) p j).caller d ≡ false)
unfolding kill_held
kill_held-Fate k p zero i d s =
    (Same-Fate [] (Same-self k d) refl refl (no_effects k.effects), λ j a b. absurd (omega arith))
kill_held-Fate k p (suc n) i d s =
    let o = caller_in (k.ports p).held i in
    let e = caller_in_lem (k.ports p).held i in
    let k1 = kill_held_call k p i o in
    let turn = kill_held_call-Fate k p i o d s.linked e in
    let loop = kill_held-Fate k1 p n (i + 1) d (kill_held_call-IsSound k p i o s e) in
    (
      Fate-trans turn.0 loop.0,
      λ j a b. elim (Bool-cases (i == j)) [
        | inl same ↦
            let z : i ≡ j = ground arith in
            subst (λ m. names (held_call (kill_held k1 p n (i + 1)) p m).caller d ≡ false) z
              (unheld p i loop.0 turn.1)
        | inr other ↦ loop.1 j (ground arith) (ground arith)
      ],
    )

-- The four loops together.
kill_queues-Fate :
    (k : Kernel) (p d : ℕ)
    → IsSound k
    → Fate k (kill_queues k p) d
      × (count d ((kill_queues k p).ports p).sender_queue ≡ 0)
      × ((j : ℕ) → j < held_slots → names (held_call (kill_queues k p) p j).caller d ≡ false)
unfolding kill_queues
kill_queues-Fate k p d s =
    let k1 = kill_senders k p (k.ports p).sender_queue in
    let k2 = kill_receivers k1 p (k1.ports p).receiver_queue in
    let k3 = kill_servers k2 p (k2.ports p).active_servers in
    let s1 = kill_senders-IsSound k p (k.ports p).sender_queue s (λ e. refl) in
    let s2 = kill_receivers-IsSound k1 p (k1.ports p).receiver_queue s1 refl in
    let s3 = kill_servers-IsSound k2 p (k2.ports p).active_servers s2 in
    let f1 = kill_senders-Fate k p (k.ports p).sender_queue d s.linked (λ e. refl) in
    let f2 = kill_receivers-Fate k1 p (k1.ports p).receiver_queue d s1 refl in
    let f3 = kill_servers-Fate k2 p (k2.ports p).active_servers d in
    let f4 = kill_held-Fate k3 p held_slots 0 d s3 in
    let later = Fate-trans f2 (Fate-trans f3 f4.0) in
    (Fate-trans f1.0 later, unqueued p later f1.1, λ j lt. f4.1 j (omega arith) (omega arith))

-- The task has a call in the queue of `p` or in its table.
pub data HasCall (k : Kernel) (d p : ℕ) : Type 0 where
  queued : IsAt k d (in_queue p) → HasCall k d p
  parked : (i : ℕ) → i < held_slots → IsAt k d (on_hold p i) → HasCall k d p

IsWoken-if :
    {k k' : Kernel} {d p : ℕ}
    → HasCall k d p
    → Fate k k' d
    → count d (k'.ports p).sender_queue ≡ 0
    → ((j : ℕ) → j < held_slots → names (held_call k' p j).caller d ≡ false)
    → IsWoken k k' d
IsWoken-if h (woken w) empty free = w
IsWoken-if {d} {p} (queued a) (stays s r) empty free =
    let once : (if p == p then 1 else 0) ≡ 0 = sym (a.queue p) ∙ sym (s.queue p) ∙ empty in
    absurd (let once' = rw (==_refl p) at once in omega (arith, once'))
IsWoken-if {d} {p} (parked i lt a) (stays s r) empty free =
    let there : (p == p && i == i) ≡ false =
      sym (a.calls_held p i) ∙ sym (s.calls_held p i) ∙ free i lt in
    absurd (let there' = rw (==_refl p, ==_refl i) at there in cc (there'))

other_branch : (x y : Kernel) (b : Bool) → b ≡ true → (if not b then x else y) ≡ y
other_branch x y true e = refl
other_branch x y false e = absurd (cc)

-- PortKill of a live port.
live_lem :
    (k : Kernel) (p : ℕ)
    → (k.ports p).alive ≡ true
    → port_kill k p ≡ calls (kill_queues (on_port k p killed) p) (notify p)
unfolding port_kill
live_lem k p live = other_branch _ _ (k.ports p).alive live

-- In a sound state, the end of a live port wakes every task whose call waits in its queue or is on hold
-- in its table: the task is in no call any more and is ready, its call returns ERR_DEAD, and PortKill
-- calls SchedAdd on it.
pub port_kill-IsWoken :
    (k : Kernel) (p d : ℕ)
    → IsSound k
    → (k.ports p).alive ≡ true
    → HasCall k d p
    → IsWoken k (port_kill k p) d
port_kill-IsWoken k p d s live h =
    let k0 = on_port k p killed in
    let same = λ (e : ℕ). Same-queue k p killed e refl refl in
    let start : IsSound k0 = record {
      linked = same-IsLinked same s.linked;
      receivers = (Kept-port k p killed refl).inv s.receivers;
    } in
    let f = kill_queues-Fate k0 p d start in
    let k1 = kill_queues k0 p in
    let last = Same-Fate (notify p ∷ []) (Same-calls k1 (notify p) d) refl refl refl in
    subst (λ m. IsWoken k m d) (sym (live_lem k p live))
      (IsWoken-if h
        (Fate-trans (Same-Fate [] (same d) refl refl (no_effects k.effects)) (Fate-trans f.0 last))
        f.1 f.2)
