-- ===== src/Ipc/Receivers/Messages.antt =====
-- Calls and receives keep the invariant of the receiver queues.
use zuzu.Base.{
  ℕ, ◌≡◌, refl, ◌∙◌, Bool, false, Option, none, some, List, arith, ◌==◌, ltb, if◌then◌else◌, inl,
  inr, Bool-cases, ==_refl, take, drop, ◌++◌,
}
use mathlib.Core.Path.{subst}
use zuzu.Sched.Defs.{update, is_empty, wait_queue_add}
use zuzu.Sched.Tasks.{count}
use zuzu.Ipc.Calls.Defs.{
  Kernel, names, on_task, on_port, calls, with_reply_cap, with_holder, recompute_priority,
  boost_servers, msg_buf_size, err_timeout, notify, with_receivers, timeout_poll, arm_timeout,
  schedule,
}
use zuzu.Ipc.Calls.Waits.{waits_at, block_on}
use zuzu.Ipc.Calls.Message.{
  copy_between, with_buf, msg_buf_copy, notify_pending, add_server, serves, serve_on, receives,
  deliver_call, no_grant, take_call,
}
use zuzu.Handle.Defs.{Entry, Copied, failed, done, copy_into, lookup}
use zuzu.Ipc.Calls.Defs.{Result, ok, fail}
use zuzu.Ipc.Calls.Grant.{
  transferable, slot_for, grant_valid, copied_into, allocate_grant_slot, grant_handle_across,
  validate_grant,
}
use zuzu.Ipc.Links.Grants.{state_of}
use zuzu.Ipc.Receivers.Ends.{plain-Kept, set_r0-Kept}
use zuzu.Ipc.Links.Block.{wait_queue_add-count}
use zuzu.Ipc.Receivers.Kept.{
  AreReceivers, Kept, Kept-self, Kept-trans, Kept-calls, Kept-tables, Kept-port, Kept-task,
  Gentle-idle,
}

-- SchedBlockOn of a task that receives nowhere, serves no call and is in none.
pub block_on-AreReceivers :
    (k : Kernel) (t p timeout : ℕ)
    → AreReceivers k
    → (k.tasks t).wait_port ≡ none
    → (k.tasks t).reply_cap ≡ none
    → (k.tasks t).waiting ≡ false
    → AreReceivers (block_on k t p timeout)
unfolding block_on
block_on-AreReceivers k t p timeout a idle free rests =
    let priority = λ (u : ℕ). (k.tasks u).priority in
    let receivers = wait_queue_add priority (k.ports p).receiver_queue t in
    let k1 = on_task (on_port k p (with_receivers receivers)) t (waits_at p) in
    let mine : (q : ℕ) → count t (k.ports q).receiver_queue ≡ 0 = λ q. a.queue q t ∙ rw idle in
    let added : AreReceivers k1 = record {
      queue = λ q u. elim (Bool-cases (p == q)) [
        | inl same ↦
            let z : p ≡ q = ground arith in
            rw same (
              wait_queue_add-count priority u t (k.ports p).receiver_queue
              ∙ elim (Bool-cases (t == u)) [
                | inl me ↦
                    let y : u ≡ t = ground arith in rw me (rw (y, ==_refl t, mine p) (rw same))
                | inr you ↦
                    let f : (u == t) ≡ false = ground arith in
                    let n =
                      subst
                        (λ r.
                          count u (k.ports p).receiver_queue
                          ≡ (if names (k.tasks u).wait_port r then 1 else 0))
                        z (a.queue p u) in
                    rw (you, f) (omega (arith, n))
              ])
        | inr other ↦ elim (Bool-cases (t == u)) [
          | inl me ↦ let y : u ≡ t = ground arith in rw (other, me) (rw other (rw y (mine q)))
          | inr you ↦ rw (other, you) (a.queue q u)
        ]
      ];
      free = λ u. elim (Bool-cases (t == u)) [
        | inl me ↦ rw me (λ h. free)
        | inr you ↦ rw you (a.free u)
      ];
      rests = λ u. elim (Bool-cases (t == u)) [
        | inl me ↦ rw me (λ h. rests)
        | inr you ↦ rw you (a.rests u)
      ];
    } in
    elim (Bool-cases (timeout == timeout_poll)) [
      | inl poll ↦ rw poll ((set_r0-Kept k t err_timeout).inv a)
      | inr waits ↦ rw waits (
          (Kept-trans (Kept-calls k1 (arm_timeout t timeout))
              (Kept-calls (calls k1 (arm_timeout t timeout)) schedule)).inv
            added)
    ]

pub notify_pending-Kept : (k : Kernel) (p : ℕ) → Kept k (notify_pending k p)
unfolding notify_pending
notify_pending-Kept k p = elim (Bool-cases (is_empty (k.ports p).sender_queue)) [
  | inl empty ↦ rw empty (Kept-self k)
  | inr waiting ↦ rw waiting (Kept-calls k (notify p))
]

copy_between-Kept :
    (k : Kernel) (dst : ℕ) (from to : Option (List ℕ)) (len : ℕ)
    → Kept k (copy_between k dst from to len)
unfolding copy_between
copy_between-Kept k dst (some from) (some to) len =
    plain-Kept k dst (with_buf (take len from ++ drop len to)) refl refl refl
copy_between-Kept k dst none to len = Kept-self k
copy_between-Kept k dst (some from) none len = Kept-self k

pub copy_if-Kept :
    (k : Kernel) (src dst xlen : ℕ) → Kept k (if xlen == 0 then k else msg_buf_copy k src dst xlen)
unfolding msg_buf_copy
copy_if-Kept k src dst xlen = elim (Bool-cases (xlen == 0)) [
  | inl zero_len ↦ rw zero_len (Kept-self k)
  | inr more ↦ rw more (elim (Bool-cases (ltb msg_buf_size xlen)) [
    | inl long ↦ rw long (Kept-self k)
    | inr fits ↦ rw fits (copy_between-Kept k dst (k.tasks src).buf (k.tasks dst).buf xlen)
  ])
]

serve_on-Kept : (k : Kernel) (rx : ℕ) (o : Option ℕ) → Kept k (serve_on k rx o)
unfolding serve_on
serve_on-Kept k rx none = Kept-self k
serve_on-Kept k rx (some p) =
    Kept-trans (Kept-port k p (add_server rx) refl)
      (plain-Kept (on_port k p (add_server rx)) rx (serves p) refl refl refl)

-- A delivery to a task that receives nowhere.
pub deliver_call-Kept :
    (k : Kernel) (caller rx : ℕ) (rc : Option ℕ) (xlen w : ℕ)
    → (k.tasks rx).wait_port ≡ none
    → Kept k (deliver_call k caller rx rc xlen w)
unfolding deliver_call
deliver_call-Kept k caller rx rc xlen w idle =
    let f = receives (k.tasks caller).port_marker xlen w in
    let k1 = on_task k rx f in
    let k2 = if xlen == 0 then k1 else msg_buf_copy k1 caller rx xlen in
    let o = (k2.tasks caller).blocked_port in
    let k3 = serve_on k2 rx o in
    let k4 = on_task k3 rx (with_reply_cap rc) in
    let k5 = on_task k4 caller (with_holder (some rx)) in
    let first =
      Kept-trans (plain-Kept k rx f refl refl refl)
        (Kept-trans (copy_if-Kept k1 caller rx xlen) (serve_on-Kept k2 rx o)) in
    Kept-trans first (
      Kept-trans (Kept-task k3 rx (with_reply_cap rc) (Gentle-idle (first.idle rx idle) refl)) (
        Kept-trans (plain-Kept k4 caller (with_holder (some rx)) refl refl refl)
          (Kept-calls k5 (recompute_priority rx))))

pub take_call-Kept :
    (k : Kernel) (server p caller w : ℕ)
    → (k.tasks server).wait_port ≡ none
    → Kept k (take_call k server p caller w)
unfolding take_call
take_call-Kept k server p caller w idle =
    let k1 = on_task k caller no_grant in
    let rc = (k.tasks caller).pending_reply_cap in
    let xlen = (k.tasks caller).msg_xfer_len in
    let k2 = deliver_call k1 caller server rc xlen w in
    let first = plain-Kept k caller no_grant refl refl refl in
    Kept-trans first (
      Kept-trans (deliver_call-Kept k1 caller server rc xlen w (first.idle server idle)) (
        Kept-trans (Kept-calls k2 (boost_servers p))
          (notify_pending-Kept (calls k2 (boost_servers p)) p)))

-- A grant changes tables alone.
copied_into-Kept : (k : Kernel) (space : ℕ) (c : Copied) → Kept k (state_of (copied_into k space c))
unfolding copied_into
copied_into-Kept k space (failed e t) = Kept-tables k (update k.tables space t) k.refs
copied_into-Kept k space (done h t refs) = Kept-tables k (update k.tables space t) refs

slot_for-Kept :
    (memory : Bool) (k : Kernel) (to : ℕ) (r : Result Entry)
    → Kept k (state_of (slot_for memory k to r))
unfolding slot_for
slot_for-Kept memory k to (fail c) = Kept-self k
slot_for-Kept memory k to (ok e) =
    copied_into-Kept k to (copy_into memory (k.tables to) e e.perms e.marker k.refs)

pub allocate_grant_slot-Kept :
    (memory : Bool) (k : Kernel) (from to : ℕ) (grant : Option ℕ)
    → Kept k (state_of (allocate_grant_slot memory k from to grant))
unfolding allocate_grant_slot
allocate_grant_slot-Kept memory k from to none = Kept-self k
allocate_grant_slot-Kept memory k from to (some h) =
    slot_for-Kept memory k to (transferable (lookup (k.tables from) h))

grant_valid-Kept :
    (memory : Bool) (k : Kernel) (from to : ℕ) (grant checked : Option ℕ)
    → Kept k (state_of (grant_valid memory k from to grant checked))
unfolding grant_valid
grant_valid-Kept memory k from to grant (some c) = Kept-self k
grant_valid-Kept memory k from to grant none = allocate_grant_slot-Kept memory k from to grant

pub grant_handle_across-Kept :
    (memory : Bool) (k : Kernel) (from to : ℕ) (grant : Option ℕ)
    → Kept k (state_of (grant_handle_across memory k from to grant))
unfolding grant_handle_across
grant_handle_across-Kept memory k from to grant =
    grant_valid-Kept memory k from to grant (validate_grant k from grant)
