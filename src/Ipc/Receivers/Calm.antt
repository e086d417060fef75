-- ===== src/Ipc/Receivers/Calm.antt =====
-- The answer to a call keeps the receivers, and no task starts to wait by it.
use zuzu.Base.{
  ℕ, ◌≡◌, refl, sym, ap, ◌∙◌, Bool, false, Option, none, some, List, arith, ◌==◌, ltb,
  if◌then◌else◌, inl, inr, Bool-cases,
}
use mathlib.Core.Path.{subst}
use zuzu.Ipc.Calls.Defs.{
  Task, Kernel, Effect, on_task, calls, with_reply_cap, leave_sleep, sched_add, msg_buf_size,
}
use zuzu.Ipc.Calls.Waits.{detach_from, detach_serving, clear_reply_cap}
use zuzu.Ipc.Calls.Message.{copy_between, msg_buf_copy, receives}
use zuzu.Ipc.Calls.Grant.{grant_handle_across, Granted, refused, granted}
use zuzu.Ipc.Links.Grants.{state_of}
use zuzu.Ipc.Receivers.Ends.{plain-Kept}
use zuzu.Ipc.Calls.Defs.{minus}
use zuzu.Ipc.Calls.Reply.{
  answered, results, reply_deliver, reply_fail, answerable, answer_granted, answer, answer_current,
  answer_by,
}
use zuzu.Ipc.Receivers.Ends.{clear_reply_cap-Kept}
use zuzu.Ipc.Receivers.Messages.{copy_if-Kept, grant_handle_across-Kept}
use zuzu.Ipc.Links.Grants.{grant_handle_across_tasks}
use zuzu.Ipc.Receivers.Kept.{Kept, Kept-self, Kept-trans, Kept-calls, Kept-task}

-- No task starts to wait for an answer from `k` to `k'`, and the receivers are kept.
pub record Calm (k k' : Kernel) : Type 0 where
  pub kept : Kept k k'
  pub rests : (t : ℕ) → (k.tasks t).waiting ≡ false → (k'.tasks t).waiting ≡ false

Calm-trans : {k k' k'' : Kernel} → Calm k k' → Calm k' k'' → Calm k k''
Calm-trans a b = record { kept = Kept-trans a.kept b.kept; rests = λ t h. b.rests t (a.rests t h) }

Calm-task :
    (k : Kernel) (t : ℕ) (f : Task → Task)
    → Kept k (on_task k t f)
    → ((k.tasks t).waiting ≡ false → (f (k.tasks t)).waiting ≡ false)
    → Calm k (on_task k t f)
Calm-task k t f kept h = record {
  kept = kept;
  rests = λ u r. elim (Bool-cases (t == u)) [
    | inl same ↦
        let z : u ≡ t = ground arith in rw same (h (subst (λ v. (k.tasks v).waiting ≡ false) z r))
    | inr other ↦ rw other r
  ];
}

Calm-tasks : {k k' : Kernel} → Kept k k' → k'.tasks ≡ k.tasks → Calm k k'
Calm-tasks kept e = record {
  kept = kept;
  rests = λ t r. ap (λ (f : ℕ → Task). (f t).waiting) e ∙ r;
}

pub Calm-plain :
    (k : Kernel) (t : ℕ) (f : Task → Task)
    → (f (k.tasks t)).wait_port ≡ (k.tasks t).wait_port
    → (f (k.tasks t)).reply_cap ≡ (k.tasks t).reply_cap
    → (f (k.tasks t)).waiting ≡ (k.tasks t).waiting
    → Calm k (on_task k t f)
Calm-plain k t f a b c = Calm-task k t f (plain-Kept k t f a b c) (λ r. c ∙ r)

detach_calm :
    (k : Kernel) (t : ℕ) (o : Option ℕ) (u : ℕ)
    → ((detach_from k t o).tasks u).waiting ≡ (k.tasks u).waiting
unfolding detach_from
detach_calm k t none u = refl
detach_calm k t (some p) u = elim (Bool-cases (t == u)) [
  | inl same ↦ let z : t ≡ u = ground arith in rw same (ap (λ v. (k.tasks v).waiting) z)
  | inr other ↦ rw other
]

clear_reply_cap-Calm : (k : Kernel) (t : ℕ) → Calm k (clear_reply_cap k t)
unfolding clear_reply_cap detach_serving
clear_reply_cap-Calm k t =
    let k1 = on_task k t (with_reply_cap none) in
    let kept = clear_reply_cap-Kept k t in
    record {
      kept = kept;
      rests = λ u r. detach_calm k1 t (k1.tasks t).serving_port u ∙ elim (Bool-cases (t == u)) [
        | inl same ↦
            let z : t ≡ u = ground arith in
            rw same (subst (λ v. (k.tasks v).waiting ≡ false) (sym z) r)
        | inr other ↦ rw other r
      ];
    }

copy_waits :
    (k : Kernel) (dst : ℕ) (from to : Option (List ℕ)) (len u : ℕ)
    → ((copy_between k dst from to len).tasks u).waiting ≡ (k.tasks u).waiting
unfolding copy_between
copy_waits k dst (some from) (some to) len u = elim (Bool-cases (dst == u)) [
  | inl same ↦ let z : dst ≡ u = ground arith in rw same (ap (λ v. (k.tasks v).waiting) z)
  | inr other ↦ rw other
]
copy_waits k dst none to len u = refl
copy_waits k dst (some from) none len u = refl

copy_if-Calm :
    (k : Kernel) (src dst xlen : ℕ) → Calm k (if xlen == 0 then k else msg_buf_copy k src dst xlen)
unfolding msg_buf_copy
copy_if-Calm k src dst xlen = record {
  kept = copy_if-Kept k src dst xlen;
  rests = λ u r. elim (Bool-cases (xlen == 0)) [
    | inl zero_len ↦ rw zero_len r
    | inr more ↦ rw more (elim (Bool-cases (ltb msg_buf_size xlen)) [
      | inl long ↦ rw long r
      | inr fits ↦ rw fits (copy_waits k dst (k.tasks src).buf (k.tasks dst).buf xlen u ∙ r)
    ])
  ];
}

answered-Calm : (k : Kernel) (t : ℕ) → Calm k (on_task k t answered)
answered-Calm k t =
    Calm-task k t answered
      (Kept-task k t answered (record { slot = refl; free = λ i h. h; rests = λ i h. refl }))
      (λ r. refl)

calls-Calm : (k : Kernel) (e : Effect) → Calm k (calls k e)
calls-Calm k e = Calm-tasks (Kept-calls k e) refl

pub reply_deliver-Calm :
    (k : Kernel) (server t xlen w : ℕ) → Calm k (reply_deliver k server t xlen w)
unfolding reply_deliver
reply_deliver-Calm k server t xlen w =
    let k1 = on_task k t (results 0 xlen w) in
    let k2 = if xlen == 0 then k1 else msg_buf_copy k1 server t xlen in
    let k3 = calls k2 (leave_sleep t) in
    Calm-trans (Calm-plain k t (results 0 xlen w) refl refl refl) (
      Calm-trans (copy_if-Calm k1 server t xlen) (
        Calm-trans (calls-Calm k2 (leave_sleep t))
          (Calm-trans (answered-Calm k3 t) (calls-Calm (on_task k3 t answered) (sched_add t)))))

pub reply_fail-Calm : (k : Kernel) (t err : ℕ) → Calm k (reply_fail k t err)
unfolding reply_fail
reply_fail-Calm k t err =
    let k1 = on_task k t (results err 0 (minus 1)) in
    let k2 = calls k1 (leave_sleep t) in
    Calm-trans (Calm-plain k t (results err 0 (minus 1)) refl refl refl) (
      Calm-trans (calls-Calm k1 (leave_sleep t))
        (Calm-trans (answered-Calm k2 t) (calls-Calm (on_task k2 t answered) (sched_add t))))

pub grant-Calm :
    (memory : Bool) (k : Kernel) (from to : ℕ) (grant : Option ℕ)
    → Calm k (state_of (grant_handle_across memory k from to grant))
grant-Calm memory k from to grant =
    Calm-tasks (grant_handle_across-Kept memory k from to grant)
      (grant_handle_across_tasks memory k from to grant)

answer_granted-Calm :
    (server xlen t : ℕ) (g : Granted) → Calm (state_of g) (answer_granted server xlen t g).1
unfolding answer_granted
answer_granted-Calm server xlen t (refused c k) =
    Calm-trans (clear_reply_cap-Calm k server) (reply_fail-Calm (clear_reply_cap k server) t c)
answer_granted-Calm server xlen t (granted w k) =
    Calm-trans (clear_reply_cap-Calm k server)
      (reply_deliver-Calm (clear_reply_cap k server) server t xlen w)

answer_current-Calm :
    (memory : Bool) (k : Kernel) (server xlen : ℕ) (grant : Option ℕ) (receives : Bool) (rc : ℕ)
    (o : Option ℕ)
    → Calm k (answer_current memory k server xlen grant receives rc o).1
unfolding answer_current answer
answer_current-Calm memory k server xlen grant receives rc none = clear_reply_cap-Calm k server
answer_current-Calm memory k server xlen grant receives rc (some t) =
    elim (Bool-cases (answerable k rc t)) [
      | inl good ↦
          let from = (k.tasks server).owner in
          let to = (k.tasks t).owner in
          rw good (
            Calm-trans (grant-Calm memory k from to grant)
              (answer_granted-Calm server xlen t (grant_handle_across memory k from to grant)))
      | inr stale ↦ rw stale (clear_reply_cap-Calm k server)
    ]

pub answer_by-Calm :
    (memory : Bool) (k : Kernel) (server xlen : ℕ) (grant : Option ℕ) (receives : Bool)
    (o : Option ℕ)
    → Calm k (answer_by memory k server xlen grant receives o).1
unfolding answer_by
answer_by-Calm memory k server xlen grant receives none = Calm-tasks (Kept-self k) refl
answer_by-Calm memory k server xlen grant receives (some rc) =
    answer_current-Calm memory k server xlen grant receives rc
      (k.tasks rc).reply_cap_storage.caller_task
