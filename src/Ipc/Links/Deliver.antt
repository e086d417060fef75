-- ===== src/Ipc/Links/Deliver.antt =====
-- A call that is delivered: its caller is then with the server that received it, and every other
-- caller is where it was.
use zuzu.Base.{
  ℕ, ◌≡◌, refl, sym, ap, ◌∙◌, true, false, Option, none, some, List, ◌++◌, arith, ◌==◌, ◌||◌, ltb,
  if◌then◌else◌, inl, inr, Bool-cases, ==_refl, take, drop,
}
use mathlib.Core.Path.{subst}
use zuzu.Ipc.Calls.Defs.{
  Reply, Task, Kernel, names, on_task, on_port, with_reply_cap, with_holder, msg_buf_size,
  recompute_priority,
}
use zuzu.Ipc.Calls.Message.{
  copy_between, with_buf, msg_buf_copy, add_server, serves, serve_on, receives, deliver_call,
}
use zuzu.Ipc.Links.Place.{with_server, Object, IsAt, IsAt-Same, Same, Same-self, Same-trans}
use zuzu.Ipc.Links.Frames.{Quiet, plain, Same-calls, Same-other, Same-quiet, Same-queue}
use zuzu.Ipc.Links.Ends.{Unnamed, Unnamed-Same}

copy_between-Same :
    (k : Kernel) (dst : ℕ) (from to : Option (List ℕ)) (len d : ℕ)
    → Same k (copy_between k dst from to len) d
unfolding copy_between
copy_between-Same k dst (some from) (some to) len d =
    Same-quiet k dst (with_buf (take len from ++ drop len to)) plain d refl
copy_between-Same k dst none to len d = Same-self k d
copy_between-Same k dst (some from) none len d = Same-self k d

-- MsgBufCopy writes a buffer alone.
pub msg_buf_copy-Same : (k : Kernel) (src dst len d : ℕ) → Same k (msg_buf_copy k src dst len) d
unfolding msg_buf_copy
msg_buf_copy-Same k src dst len d = elim (Bool-cases (len == 0 || ltb msg_buf_size len)) [
  | inl nothing ↦ rw nothing (Same-self k d)
  | inr some_bytes ↦
      rw some_bytes (copy_between-Same k dst (k.tasks src).buf (k.tasks dst).buf len d)
]

-- `if (xlen) MsgBufCopy(...)`.
pub copy_if-Same :
    (k : Kernel) (src dst xlen d : ℕ)
    → Same k (if xlen == 0 then k else msg_buf_copy k src dst xlen) d
copy_if-Same k src dst xlen d = elim (Bool-cases (xlen == 0)) [
  | inl zero_len ↦ rw zero_len (Same-self k d)
  | inr more ↦ rw more (msg_buf_copy-Same k src dst xlen d)
]

serve_on-Same : (k : Kernel) (rx : ℕ) (o : Option ℕ) (d : ℕ) → Same k (serve_on k rx o) d
unfolding serve_on
serve_on-Same k rx none d = Same-self k d
serve_on-Same k rx (some p) d =
    Same-trans (Same-queue k p (add_server rx) d refl refl)
      (Same-quiet (on_port k p (add_server rx)) rx (serves p) plain d refl)

-- A task that waits for its call to be delivered, and is in no queue any more.
pub record InTransit (k : Kernel) (c : ℕ) : Type 0 where
  pub waits : (k.tasks c).waiting ≡ true
  pub held_at : (k.tasks c).held_port ≡ none
  pub object : Object k c
  pub unnamed : Unnamed k c

pub InTransit-Same : {k k' : Kernel} {c : ℕ} → Same k k' c → InTransit k c → InTransit k' c
InTransit-Same s t = record {
  waits = s.waits ∙ t.waits;
  held_at = s.held_at ∙ t.held_at;
  object = record {
    pending = s.pending t.waits ∙ t.object.pending;
    task = rw (s.storage t.waits) t.object.task;
    tid = rw (s.storage t.waits) (t.object.tid ∙ sym s.tid);
    alive = s.lives t.object.alive;
  };
  unnamed = Unnamed-Same s t.unnamed;
}

-- The two links between a server and its caller.
abbrev pub linked : Kernel → ℕ → ℕ → Kernel
linked k rx c = on_task (on_task k rx (with_reply_cap (some c))) c (with_holder (some rx))

linked_task :
    (k : Kernel) (rx c : ℕ)
    → Quiet (record (k.tasks c) { reply_holder = some rx }) ((linked k rx c).tasks c)
linked_task k rx c = elim (Bool-cases (rx == c)) [
  | inl same ↦
      let z : rx ≡ c = ground arith in
      subst (λ u. Quiet (record (k.tasks c) { reply_holder = some u }) ((linked k u c).tasks c))
        (sym z) (rw (==_refl c) plain)
  | inr other ↦ rw (==_refl c, other) plain
]

pub cap_kept :
    (k : Kernel) (t : ℕ) (f : Task → Task) (s : ℕ)
    → (f (k.tasks t)).reply_cap ≡ (k.tasks t).reply_cap
    → ((on_task k t f).tasks s).reply_cap ≡ (k.tasks s).reply_cap
cap_kept k t f s h = elim (Bool-cases (t == s)) [
  | inl same ↦ let z : t ≡ s = ground arith in rw same (h ∙ ap (λ u. (k.tasks u).reply_cap) z)
  | inr other ↦ rw other
]

linked_caps :
    (k : Kernel) (rx c s : ℕ)
    → names (k.tasks s).reply_cap c ≡ false
    → names ((linked k rx c).tasks s).reply_cap c ≡ (rx == s)
linked_caps k rx c s h =
    let k1 = on_task k rx (with_reply_cap (some c)) in
    ap (λ o. names o c) (cap_kept k1 c (with_holder (some rx)) s refl)
    ∙ elim (Bool-cases (rx == s)) [ inl same ↦ rw same (==_refl c) | inr other ↦ rw other h ]

linked-IsAt : (k : Kernel) (rx c : ℕ) → InTransit k c → IsAt (linked k rx c) c (with_server rx)
linked-IsAt k rx c t =
    let q = linked_task k rx c in
    record {
      waits = q.waits ∙ t.waits;
      holder = q.holder;
      held_at = q.held_at ∙ t.held_at;
      local = tt;
      object = λ h. record {
        pending = q.pending t.waits ∙ t.object.pending;
        task = ap (λ (r : Reply). r.caller_task) (q.storage t.waits) ∙ t.object.task;
        tid = ap (λ (r : Reply). r.caller_tid) (q.storage t.waits) ∙ t.object.tid ∙ sym q.tid;
        alive = q.lives t.object.alive;
      };
      queue = t.unnamed.queue;
      caps = λ s. linked_caps k rx c s (t.unnamed.caps s);
      calls_held = t.unnamed.calls_held;
      tids = λ p i h. absurd (cc);
    }

linked-Same :
    (k : Kernel) (rx c d : ℕ)
    → (k.tasks rx).reply_cap ≡ none
    → (c == d) ≡ false
    → Same k (linked k rx c) d
linked-Same k rx c d free e =
    Same-trans
      (Same-quiet k rx (with_reply_cap (some c)) plain d (e ∙ ap (λ o. names o d) (sym free)))
      (Same-other (on_task k rx (with_reply_cap (some c))) c (with_holder (some rx)) d e refl)

-- What a delivery does before the links are made.
prepared : Kernel → ℕ → ℕ → ℕ → ℕ → Kernel
prepared k caller rx xlen w =
    let k1 = on_task k rx (receives (k.tasks caller).port_marker xlen w) in
    let k2 = if xlen == 0 then k1 else msg_buf_copy k1 caller rx xlen in
    serve_on k2 rx (k2.tasks caller).blocked_port

prepared-Same : (k : Kernel) (caller rx xlen w d : ℕ) → Same k (prepared k caller rx xlen w) d
unfolding prepared
prepared-Same k caller rx xlen w d =
    let f = receives (k.tasks caller).port_marker xlen w in
    let k1 = on_task k rx f in
    let k2 = if xlen == 0 then k1 else msg_buf_copy k1 caller rx xlen in
    Same-trans (Same-quiet k rx f plain d refl) (
      Same-trans (copy_if-Same k1 caller rx xlen d)
        (serve_on-Same k2 rx (k2.tasks caller).blocked_port d))

-- A pointer that names nothing is NULL.
pub none_of_names : (o : Option ℕ) → ((d : ℕ) → names o d ≡ false) → o ≡ none
none_of_names none h = refl
none_of_names (some x) h = absurd (cc (h x, ==_refl x))

-- What a delivery of the call of `c` to `rx` does to the places.
pub record Delivered (k k' : Kernel) (rx c : ℕ) : Type 0 where
  pub served : IsAt k' c (with_server rx)
  pub others : (d : ℕ) → (c == d) ≡ false → Same k k' d

pub deliver_call-Delivered :
    (k : Kernel) (caller rx xlen w : ℕ)
    → InTransit k caller
    → (k.tasks rx).reply_cap ≡ none
    → Delivered k (deliver_call k caller rx (some caller) xlen w) rx caller
unfolding deliver_call prepared
deliver_call-Delivered k caller rx xlen w t free =
    let k3 = prepared k caller rx xlen w in
    let free' : (k3.tasks rx).reply_cap ≡ none =
      none_of_names _
        (λ d. (prepared-Same k caller rx xlen w d).caps rx ∙ ap (λ o. names o d) free) in
    let t' = InTransit-Same (prepared-Same k caller rx xlen w caller) t in
    let k5 = linked k3 rx caller in
    record {
      served =
          IsAt-Same (Same-calls k5 (recompute_priority rx) caller) (linked-IsAt k3 rx caller t');
      others = λ d e. Same-trans (prepared-Same k caller rx xlen w d) (
          Same-trans (linked-Same k3 rx caller d free' e)
            (Same-calls k5 (recompute_priority rx) d));
    }
