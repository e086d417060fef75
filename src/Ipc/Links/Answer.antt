-- ===== src/Ipc/Links/Answer.antt =====
-- SvcReply answers the call that its task serves, or one on hold: the caller is then in no call.
use zuzu.Base.{
  ℕ, ◌≡◌, refl, ◌∙◌, Bool, true, false, Option, none, some, ◌==◌, if◌then◌else◌, ==_refl,
}
use mathlib.Core.Path.{subst}
use zuzu.Ipc.Calls.Defs.{Kernel, names, on_task, calls, sched_add, leave_sleep, minus}
use zuzu.Ipc.Calls.Waits.{clear_reply_cap}
use zuzu.Ipc.Calls.Grant.{Granted, refused, granted, grant_handle_across}
use zuzu.Ipc.Calls.Message.{msg_buf_copy}
use zuzu.Ipc.Calls.Reply.{
  answered, results, reply_deliver, reply_fail, answerable, answer_granted, answer, answer_current,
  answer_by,
}
use zuzu.Ipc.Links.Place.{nowhere, with_server, IsAt, IsAt-Same, Same, Same-trans, IsLinked}
use zuzu.Ipc.Links.Frames.{plain, Same-calls, Same-other, Same-quiet}
use zuzu.Ipc.Links.Ends.{Unnamed, Unnamed-Same, Unnamed-on_task, nowhere-IsAt, clear_reply_cap-Same}
use zuzu.Ipc.Links.Parts.{names-other, clear_reply_cap-Unnamed, clear_reply_cap-Quiet}
use zuzu.Ipc.Links.Cancel.{moved-IsLinked, Freed}
use zuzu.Ipc.Links.Deliver.{copy_if-Same}
use zuzu.Ipc.Links.HoldIn.{served_by, still_calls-served}
use zuzu.Ipc.Links.Grants.{state_of, grant_handle_across-Same}

-- From `k` to `k'` the caller `t` is taken out of its place, to be answered; the others stay.
pub record Loose (k k' : Kernel) (t : ℕ) : Type 0 where
  pub others : (d : ℕ) → (t == d) ≡ false → Same k k' d
  pub unnamed : Unnamed k' t
  pub held_at : (k'.tasks t).held_port ≡ none

pub Loose-Same :
    {k k' k'' : Kernel} {t : ℕ} → Loose k k' t → ((d : ℕ) → Same k' k'' d) → Loose k k'' t
Loose-Same {t} l s = record {
  others = λ d e. Same-trans (l.others d e) (s d);
  unnamed = Unnamed-Same (s t) l.unnamed;
  held_at = (s t).held_at ∙ l.held_at;
}

pub Loose-Freed : {k k' : Kernel} {t : ℕ} → Freed k k' t → Loose k k' t
Loose-Freed f = record { others = f.others; unnamed = f.unnamed; held_at = f.held_at }

pub Same-Loose :
    {k k' k'' : Kernel} {t : ℕ} → ((d : ℕ) → Same k k' d) → Loose k' k'' t → Loose k k'' t
Same-Loose s l = record {
  others = λ d e. Same-trans (s d) (l.others d e);
  unnamed = l.unnamed;
  held_at = l.held_at;
}

-- What an answer comes to: its caller is in no call, and the others stay.
pub record Answered (k k' : Kernel) (t : ℕ) : Type 0 where
  pub gone : IsAt k' t nowhere
  pub others : (d : ℕ) → (t == d) ≡ false → Same k k' d

pub Answered-Same :
    {k k' k'' : Kernel} {t : ℕ} → Answered k k' t → ((d : ℕ) → Same k' k'' d) → Answered k k'' t
Answered-Same {t} a s = record {
  gone = IsAt-Same (s t) a.gone;
  others = λ d e. Same-trans (a.others d e) (s d);
}

pub Answered-IsLinked : {k k' : Kernel} {t : ℕ} → IsLinked k → Answered k k' t → IsLinked k'
Answered-IsLinked {t} l a = moved-IsLinked t l (record { place = nowhere; at = a.gone }) a.others

answered_lem : {k k' : Kernel} {t : ℕ} → Loose k k' t → Answered k (on_task k' t answered) t
answered_lem {k'} {t} l = record {
  gone =
      nowhere-IsAt (on_task k' t answered) t
        (Unnamed-on_task k' t answered t l.unnamed (l.unnamed.caps t)) (rw (==_refl t))
        (rw (==_refl t)) (rw (==_refl t) l.held_at);
  others = λ d e. Same-trans (l.others d e) (Same-other k' t answered d e refl);
}

pub reply_deliver-Answered :
    (k k' : Kernel) (server t xlen w : ℕ)
    → Loose k k' t
    → Answered k (reply_deliver k' server t xlen w) t
unfolding reply_deliver
reply_deliver-Answered k k' server t xlen w l =
    let k1 = on_task k' t (results 0 xlen w) in
    let k2 = if xlen == 0 then k1 else msg_buf_copy k1 server t xlen in
    let k3 = calls k2 (leave_sleep t) in
    let s = λ (d : ℕ).
      Same-trans (Same-quiet k' t (results 0 xlen w) plain d refl)
        (Same-trans (copy_if-Same k1 server t xlen d) (Same-calls k2 (leave_sleep t) d)) in
    Answered-Same (answered_lem (Loose-Same l s))
      (λ d. Same-calls (on_task k3 t answered) (sched_add t) d)

pub reply_fail-Answered :
    (k k' : Kernel) (t err : ℕ) → Loose k k' t → Answered k (reply_fail k' t err) t
unfolding reply_fail
reply_fail-Answered k k' t err l =
    let k1 = on_task k' t (results err 0 (minus 1)) in
    let k2 = calls k1 (leave_sleep t) in
    let s = λ (d : ℕ).
      Same-trans (Same-quiet k' t (results err 0 (minus 1)) plain d refl)
        (Same-calls k1 (leave_sleep t) d) in
    Answered-Same (answered_lem (Loose-Same l s))
      (λ d. Same-calls (on_task k2 t answered) (sched_add t) d)

-- A server that forgets its caller leaves it loose.
Loose-server : (k : Kernel) (t s : ℕ) → IsAt k t (with_server s) → Loose k (clear_reply_cap k s) t
Loose-server k t s a =
    let served : names (k.tasks s).reply_cap t ≡ true = a.caps s ∙ ==_refl s in
    record {
      others = λ d e. clear_reply_cap-Same k s d (names-other (k.tasks s).reply_cap t d served e);
      unnamed = clear_reply_cap-Unnamed k s t a;
      held_at = (clear_reply_cap-Quiet k s t).held_at ∙ a.held_at;
    }

answer_granted-Answered :
    (k : Kernel) (server t xlen : ℕ) (g : Granted)
    → ((d : ℕ) → Same k (state_of g) d)
    → IsAt (state_of g) t (with_server server)
    → Answered k (answer_granted server xlen t g).1 t
unfolding answer_granted
answer_granted-Answered k server t xlen (refused c k') s a =
    reply_fail-Answered k (clear_reply_cap k' server) t c
      (Same-Loose s (Loose-server k' t server a))
answer_granted-Answered k server t xlen (granted w k') s a =
    reply_deliver-Answered k (clear_reply_cap k' server) server t xlen w
      (Same-Loose s (Loose-server k' t server a))

-- The answer to the call that a task serves.
pub answer-Answered :
    (memory : Bool) (k : Kernel) (server xlen : ℕ) (grant : Option ℕ) (t : ℕ)
    → IsAt k t (with_server server)
    → Answered k (answer memory k server xlen grant t).1 t
unfolding answer
answer-Answered memory k server xlen grant t a =
    let from = (k.tasks server).owner in
    let to = (k.tasks t).owner in
    let s = λ (d : ℕ). grant_handle_across-Same memory k from to grant d in
    answer_granted-Answered k server t xlen (grant_handle_across memory k from to grant) s
      (IsAt-Same (s t) a)

-- A task that a reply capability names can be answered.
pub answerable-served : (k : Kernel) (s c : ℕ) → IsAt k c (with_server s) → answerable k c c ≡ true
unfolding answerable
answerable-served k s c a = rw (still_calls-served k s c a, (a.object refl).alive)

answer_current-IsLinked :
    (memory : Bool) (k : Kernel) (server xlen : ℕ) (grant : Option ℕ) (receives : Bool) (rc : ℕ)
    (o : Option ℕ)
    → IsLinked k
    → IsAt k rc (with_server server)
    → o ≡ some rc
    → IsLinked (answer_current memory k server xlen grant receives rc o).1
unfolding answer_current
answer_current-IsLinked memory k server xlen grant receives rc none l a e = absurd (cc)
answer_current-IsLinked memory k server xlen grant receives rc (some c) l a e =
    let z : rc ≡ c = cc in
    subst (λ u. IsLinked (answer_current memory k server xlen grant receives rc (some u)).1) z
      (rw (answerable-served k server rc a)
        (Answered-IsLinked l (answer-Answered memory k server xlen grant rc a)))

pub answer_by-IsLinked :
    (memory : Bool) (k : Kernel) (server xlen : ℕ) (grant : Option ℕ) (receives : Bool)
    (o : Option ℕ)
    → IsLinked k
    → (k.tasks server).reply_cap ≡ o
    → IsLinked (answer_by memory k server xlen grant receives o).1
unfolding answer_by
answer_by-IsLinked memory k server xlen grant receives none l e = l
answer_by-IsLinked memory k server xlen grant receives (some rc) l e =
    let a = served_by server rc l e in
    answer_current-IsLinked memory k server xlen grant receives rc
      (k.tasks rc).reply_cap_storage.caller_task l a (a.object refl).task
