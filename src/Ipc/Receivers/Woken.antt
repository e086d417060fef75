-- ===== src/Ipc/Receivers/Woken.antt =====
-- What PortKill makes of the calls on the port.
use zuzu.Base.{
  ℕ, ◌++◌, [], ◌∷◌, List, ◌≡◌, refl, sym, ap, ◌∙◌, Bool, true, false, if◌then◌else◌, ◌⊎◌, inl, inr,
  Option, none, some, arith, ◌==◌, Bool-cases,
}
use mathlib.Core.Path.{subst}
use mathlib.Core.List.{append_assoc}
use zuzu.Ipc.Calls.Defs.{
  TaskState, ready, Effect, sched_add, with_r0, Frame, Task, Kernel, on_task, on_port, calls,
  set_r0, err_dead, no_pending, unblocked, no_wait_slot, leave_sleep, drop_receiver,
}
use zuzu.Ipc.Calls.Waits.{leave_queue, abort_wait, sched_unblock}
use zuzu.Ipc.Links.Place.{nowhere, IsAt, Same, Same-trans, IsAt-Same}

-- The register that a system call returns its error in.
abbrev pub result_of : Kernel → ℕ → ℕ
result_of k d = (k.tasks d).frame.r0

-- One of two values, or the second of them behind that.
abbrev pub Either {ℓ} : {A : Type ℓ} → A → A → A → Type ℓ
Either old end new = (new ≡ old) ⊎ (new ≡ end)

Either-trans {ℓ} : {A : Type ℓ} (x v y z : A) → Either x v y → Either y v z → Either x v z
Either-trans x v y z (inl e) (inl e') = inl (e' ∙ e)
Either-trans x v y z (inr e) (inl e') = inr (e' ∙ e)
Either-trans x v y z r (inr e') = inr e'

Either-end {ℓ} : {A : Type ℓ} (y v z : A) → y ≡ v → Either y v z → z ≡ v
Either-end y v z e (inl e') = e' ∙ e
Either-end y v z e (inr e') = e'

abbrev pub state_of : Kernel → ℕ → TaskState
state_of k d = (k.tasks d).state

-- From `k` to `k'` the result of a task stays or becomes ERR_DEAD, its state stays or becomes ready, and
-- calls are added to those recorded.
pub record Drift (k k' : Kernel) (d : ℕ) : Type 0 where
  pub result : Either (result_of k d) err_dead (result_of k' d)
  pub state : Either (state_of k d) ready (state_of k' d)
  pub added : List Effect
  pub adds : k'.effects ≡ k.effects ++ added

-- From `k` to `k'` a task is woken: in `k'` it is in no call, ready and has the result ERR_DEAD, and
-- between the two SchedAdd is called on it.
pub record IsWoken (k k' : Kernel) (d : ℕ) : Type 0 where
  pub at : IsAt k' d nowhere
  pub result : result_of k' d ≡ err_dead
  pub state : state_of k' d ≡ ready
  pub earlier : List Effect
  pub later : List Effect
  pub adds : k'.effects ≡ k.effects ++ (earlier ++ (sched_add d ∷ later))

-- Between two states, a task stays where it is, or it is woken.
pub data Fate (k k' : Kernel) (d : ℕ) : Type 0 where
  stays : Same k k' d → Drift k k' d → Fate k k' d
  woken : IsWoken k k' d → Fate k k' d

Drift-trans : {k k' k'' : Kernel} {d : ℕ} → Drift k k' d → Drift k' k'' d → Drift k k'' d
Drift-trans {k} a b = record {
  result = Either-trans _ _ _ _ a.result b.result;
  state = Either-trans _ _ _ _ a.state b.state;
  added = a.added ++ b.added;
  adds = b.adds ∙ ap (λ l. l ++ b.added) a.adds ∙ append_assoc k.effects a.added b.added;
}

-- What is added before a task is woken, and after it.
IsWoken-behind :
    {k k' k'' : Kernel} {d : ℕ} (added : List Effect)
    → k'.effects ≡ k.effects ++ added
    → IsWoken k' k'' d
    → IsWoken k k'' d
IsWoken-behind {k} {d} added e w = record {
  at = w.at;
  result = w.result;
  state = w.state;
  earlier = added ++ w.earlier;
  later = w.later;
  adds =
      let tail = w.earlier ++ (sched_add d ∷ w.later) in
      w.adds
      ∙ ap (λ l. l ++ tail) e
      ∙ append_assoc k.effects added tail
      ∙ ap (λ l. k.effects ++ l) (sym (append_assoc added w.earlier (sched_add d ∷ w.later)));
}

IsWoken-then :
    {k k' k'' : Kernel} {d : ℕ} → IsWoken k k' d → Same k' k'' d → Drift k' k'' d → IsWoken k k'' d
IsWoken-then {k} {d} w s f = record {
  at = IsAt-Same s w.at;
  result = Either-end _ _ _ w.result f.result;
  state = Either-end _ _ _ w.state f.state;
  earlier = w.earlier;
  later = w.later ++ f.added;
  adds =
      f.adds
      ∙ ap (λ l. l ++ f.added) w.adds
      ∙ append_assoc k.effects (w.earlier ++ (sched_add d ∷ w.later)) f.added
      ∙ ap (λ l. k.effects ++ l) (append_assoc w.earlier (sched_add d ∷ w.later) f.added);
}

pub Fate-trans : {k k' k'' : Kernel} {d : ℕ} → Fate k k' d → Fate k' k'' d → Fate k k'' d
Fate-trans (stays s f) (stays s' f') = stays (Same-trans s s') (Drift-trans f f')
Fate-trans (stays s f) (woken w) = woken (IsWoken-behind f.added f.adds w)
Fate-trans (woken w) (stays s f) = woken (IsWoken-then w s f)
Fate-trans {d} (woken w) (woken w') =
    woken (IsWoken-behind (w.earlier ++ (sched_add d ∷ w.later)) w.adds w')

pub Same-Fate :
    {k k' : Kernel} {d : ℕ} (added : List Effect)
    → Same k k' d
    → result_of k' d ≡ result_of k d
    → state_of k' d ≡ state_of k d
    → k'.effects ≡ k.effects ++ added
    → Fate k k' d
Same-Fate added s r t e =
    stays s (record { result = inl r; state = inl t; added = added; adds = e })

pub no_effects : (l : List Effect) → l ≡ l ++ []
no_effects [] = refl
no_effects (e ∷ l) = ap (λ r. e ∷ r) (no_effects l)

-- A write that leaves a field alone.
pub field_kept {ℓ} :
    {A : Type ℓ} (g : Task → A) (k : Kernel) (t : ℕ) (f : Task → Task) (d : ℕ)
    → ((x : Task) → g (f x) ≡ g x)
    → g ((on_task k t f).tasks d) ≡ g (k.tasks d)
field_kept g k t f d e = elim (Bool-cases (t == d)) [
  | inl same ↦
      let z : t ≡ d = ground arith in rw same (e (k.tasks t) ∙ ap (λ (u : ℕ). g (k.tasks u)) z)
  | inr other ↦ rw other refl
]

leave_field {ℓ} :
    {A : Type ℓ} (g : Task → A) (k : Kernel) (t : ℕ) (o : Option ℕ) (d : ℕ)
    → ((x : Task) → g (no_wait_slot x) ≡ g x)
    → g ((leave_queue k t o).tasks d) ≡ g (k.tasks d)
unfolding leave_queue
leave_field g k t none d e = refl
leave_field g k t (some p) d e = field_kept g (on_port k p (drop_receiver t)) t no_wait_slot d e

leave_effects : (k : Kernel) (t : ℕ) (o : Option ℕ) → (leave_queue k t o).effects ≡ k.effects
unfolding leave_queue
leave_effects k t none = refl
leave_effects k t (some p) = refl

abort_frame :
    (k : Kernel) (t err d : ℕ)
    → ((abort_wait k t err).tasks d).frame ≡ ((set_r0 k t err).tasks d).frame
unfolding abort_wait sched_unblock
abort_frame k t err d =
    let k1 = on_task (set_r0 k t err) t no_pending in
    let k2 = leave_queue k1 t (k1.tasks t).wait_port in
    field_kept (λ x. x.frame) (calls k2 (leave_sleep t)) t unblocked d (λ x. refl)
    ∙ leave_field (λ x. x.frame) k1 t (k1.tasks t).wait_port d (λ x. refl)
    ∙ field_kept (λ x. x.frame) (set_r0 k t err) t no_pending d (λ x. refl)

-- The woken task gets the error and is ready; no other result and no other state changes.
abort_result : (k : Kernel) (t err d : ℕ) → t == d ≡ true → result_of (abort_wait k t err) d ≡ err
abort_result k t err d same = ap (λ (f : Frame). f.r0) (abort_frame k t err d) ∙ rw same refl

abort_others :
    (k : Kernel) (t err d : ℕ) → t == d ≡ false → result_of (abort_wait k t err) d ≡ result_of k d
abort_others k t err d other = ap (λ (f : Frame). f.r0) (abort_frame k t err d) ∙ rw other refl

abort_state : (k : Kernel) (t err d : ℕ) → t == d ≡ true → state_of (abort_wait k t err) d ≡ ready
unfolding abort_wait sched_unblock
abort_state k t err d same =
    let k1 = on_task (set_r0 k t err) t no_pending in
    let k2 = calls (leave_queue k1 t (k1.tasks t).wait_port) (leave_sleep t) in
    ap (λ (b : Bool). (if b then unblocked (k2.tasks t) else k2.tasks d).state) same

abort_states :
    (k : Kernel) (t err d : ℕ) → t == d ≡ false → state_of (abort_wait k t err) d ≡ state_of k d
unfolding abort_wait sched_unblock
abort_states k t err d other =
    let k1 = on_task (set_r0 k t err) t no_pending in
    let k2 = leave_queue k1 t (k1.tasks t).wait_port in
    ap (λ (b : Bool). (if b then unblocked (k2.tasks t) else k2.tasks d).state) other
    ∙ leave_field (λ x. x.state) k1 t (k1.tasks t).wait_port d (λ x. refl)
    ∙ field_kept (λ x. x.state) (set_r0 k t err) t no_pending d (λ x. refl)
    ∙ field_kept (λ x. x.state) k t (with_r0 err) d (λ x. refl)

abort_adds :
    (k : Kernel) (t err : ℕ)
    → (abort_wait k t err).effects ≡ k.effects ++ (leave_sleep t ∷ sched_add t ∷ [])
unfolding abort_wait sched_unblock
abort_adds k t err =
    let k1 = on_task (set_r0 k t err) t no_pending in
    ap (λ l. (l ++ (leave_sleep t ∷ [])) ++ (sched_add t ∷ []))
      (leave_effects k1 t (k1.tasks t).wait_port)
    ∙ append_assoc k.effects (leave_sleep t ∷ []) (sched_add t ∷ [])

-- A task that is out of all calls is woken with ERR_DEAD and every other one stays.
pub abort-Fate :
    (k k' : Kernel) (t d : ℕ)
    → IsAt (abort_wait k' t err_dead) t nowhere
    → (t == d ≡ false → Same k (abort_wait k' t err_dead) d)
    → result_of k' d ≡ result_of k d
    → state_of k' d ≡ state_of k d
    → k'.effects ≡ k.effects
    → Fate k (abort_wait k' t err_dead) d
abort-Fate k k' t d gone others e st f = elim (Bool-cases (t == d)) [
  | inl same ↦
      let z : t ≡ d = ground arith in
      woken (record {
        at = subst (λ u. IsAt (abort_wait k' t err_dead) u nowhere) z gone;
        result = abort_result k' t err_dead d same;
        state = abort_state k' t err_dead d same;
        earlier = leave_sleep t ∷ [];
        later = [];
        adds = abort_adds k' t err_dead ∙ rw f (rw z refl);
      })
  | inr other ↦ stays (others other) (record {
    result = inl (abort_others k' t err_dead d other ∙ e);
    state = inl (abort_states k' t err_dead d other ∙ st);
    added = leave_sleep t ∷ sched_add t ∷ [];
    adds = abort_adds k' t err_dead ∙ rw f refl;
  })
]
