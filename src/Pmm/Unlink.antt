-- ===== src/Pmm/Unlink.antt =====
-- Taking a frame out of the middle of the free list, UnlinkNode of kernel/mm/pmm/pmm.c.
use zuzu.Base.{
  ℕ, ◌<◌, ◌≡◌, refl, sym, ◌∙◌, ◌≢◌, false, List, [], ◌∷◌, ◌++◌, arith, ◌==◌, if◌then◌else◌,
  Bool-cases, inl, inr,
}
use mathlib.Core.Path.{subst}
use zuzu.Pmm.Defs.{Pmm, write_if, unlink_node}
use zuzu.Pmm.Chain.{
  Lacks, Distinct, Linked, write_self, write_if_other, nonzero, Linked-write_next,
  Linked-write_prev, Linked-Lacks_zero, IsFreeList,
}

Lacks-append : (x : ℕ) (f g : List ℕ) → Lacks x (f ++ g) → Lacks x f × Lacks x g
Lacks-append x [] g h = (tt, h)
Lacks-append x (y ∷ f) g h = let r = Lacks-append x f g h.1 in ((h.0, r.0), r.1)

append-Lacks : (x : ℕ) (f g : List ℕ) → Lacks x f → Lacks x g → Lacks x (f ++ g)
append-Lacks x [] g h k = k
append-Lacks x (y ∷ f) g h k = (h.0, append-Lacks x f g h.1 k)

-- The chain of a list without its frame `a` in the middle.
abbrev first_of : List ℕ → ℕ → ℕ → ℕ
first_of [] h a = a
first_of (x ∷ f) h a = h

module _ (n p : ℕ → ℕ) (a : ℕ) (back : List ℕ) where
  abbrev next' : ℕ → ℕ
  next' = write_if n (p a) (n a)

  abbrev prev' : ℕ → ℕ
  prev' = write_if p (n a) (p a)

  middle : (f : List ℕ) (q h : ℕ) → Linked n p q h (f ++ (a ∷ back)) → Linked n p a (n a) back
  middle [] q h c = c.1.1.1
  middle (x ∷ f) q h c = middle f x (n x) c.1.1.1

  -- What stands in front of the frame.
  before_a :
      (f : List ℕ) (q h x : ℕ) → Linked n p q h (f ++ (a ∷ back)) → Lacks x f → x ≢ q → p a ≢ x
  before_a [] q h x c out ne = λ e. ne (sym e ∙ c.1.1.0)
  before_a (y ∷ f) q h x c out ne = before_a f y (n y) x c.1.1.1 out.1 out.0

  -- A frame that is not behind is not the next.
  not_next : (l : List ℕ) (q h x : ℕ) → Linked n p q h l → 0 < x → Lacks x l → h ≢ x
  not_next [] q h x c pos out = λ e. absurd (omega (arith, e, c))
  not_next (y ∷ l) q h x c pos out = λ e. out.0 (sym e ∙ c.0)

  -- The part behind the frame, with its first link to `q` back again.
  behind_a :
      (l : List ℕ) (q v : ℕ)
      → Distinct l
      → Lacks q l
      → Linked n p a v l
      → Linked (write_if n q v) (write_if p v q) q v l
  behind_a [] q v d out c = c
  behind_a (y ∷ l) q v d out c =
      let nz = nonzero y c.1.0 in
      let same : write_if n q v y ≡ n y = write_if_other n q v y out.0 in
      subst (λ w. Linked (write_if n q w) (write_if p w q) q w (y ∷ l)) (sym c.0)
        (
          refl,
          (
            c.1.0,
            (
              rw nz (write_self p y q),
              subst (λ w. Linked (write_if n q y) (write_if p y q) y w l)
                  (sym (write_if_other n q y y out.0))
                  (Linked-write_prev (write_if n q y) p y q y (n y) l d.0
                    (Linked-write_next_if q y (n y) l out.1 c.1.1.1)),
            ),
          ),
        )
    where
      Linked-write_next_if :
          (b u w : ℕ) (r : List ℕ) → Lacks b r → Linked n p u w r → Linked (write_if n b y) p u w r
      Linked-write_next_if b u w r o k = elim (Bool-cases (b == 0)) [
        | inl z ↦ rw z k
        | inr z ↦ rw z (Linked-write_next n p b y u w r o k)
      ]

  next_of :
      (x : ℕ) (f : List ℕ)
      → Lacks x f
      → 0 < x
      → Linked n p x (n x) (f ++ (a ∷ back))
      → next' x ≡ first_of f (n x) (n a)
  next_of x [] out pos c = rw (c.1.1.0, nonzero x pos) (write_self n x (n a))
  next_of x (y ∷ f) out pos c =
      write_if_other n (p a) (n a) x (before_a f y (n y) x c.1.1.1 out.1 out.0)

  unlink_chain :
      (f : List ℕ) (q h : ℕ)
      → Distinct (f ++ (a ∷ back))
      → Lacks q (f ++ (a ∷ back))
      → Linked n p q h (f ++ (a ∷ back))
      → Linked next' prev' q (first_of f h (n a)) (f ++ back)
  unlink_chain [] q h d out c =
      subst (λ w. Linked (write_if n w (n a)) (write_if p (n a) w) q (n a) back) (sym c.1.1.0)
        (behind_a back q (n a) d.1 out.1 c.1.1.1)
  unlink_chain (x ∷ f) q h d out c =
      let others = Lacks-append x f (a ∷ back) d.0 in
      let ne : n a ≢ x = not_next back a (n a) x (middle f x (n x) c.1.1.1) c.1.0 others.1.1 in
      let ih = unlink_chain f x (n x) d.1 d.0 c.1.1.1 in
      (
        c.0,
        (
          c.1.0,
          (
            write_if_other p (n a) (p a) x ne ∙ c.1.1.0,
            subst (λ w. Linked next' prev' x w (f ++ back))
                (sym (next_of x f others.0 c.1.0 c.1.1.1)) ih,
          ),
        ),
      )

  -- The list of a state without a frame that stood in it.
  without-Distinct : (f : List ℕ) → Distinct (f ++ (a ∷ back)) → Distinct (f ++ back)
  without-Distinct [] d = d.1
  without-Distinct (x ∷ f) d =
      let o = Lacks-append x f (a ∷ back) d.0 in
      (append-Lacks x f back o.0 o.1.1, without-Distinct f d.1)

  head_after :
      (f : List ℕ) (h : ℕ)
      → Linked n p 0 h (f ++ (a ∷ back))
      → (if p a == 0 then n a else h) ≡ first_of f h (n a)
  head_after [] h c = rw c.1.1.0 refl
  head_after (x ∷ f) h c =
      let z = Linked-Lacks_zero n p 0 h (x ∷ f ++ (a ∷ back)) c in
      let o = Lacks-append 0 f (a ∷ back) z.1 in
      let e : p a == 0 ≡ false = nonzero_of (p a) (before_a f x (n x) 0 c.1.1.1 o.0 z.0) in
      rw e refl
    where
      nonzero_of : (y : ℕ) → y ≢ 0 → y == 0 ≡ false
      nonzero_of y ne = ground arith

-- UnlinkNode takes exactly its frame out of the list, wherever it stands.
pub unlink_node-IsFreeList :
    (s : Pmm) (a : ℕ) (front back : List ℕ)
    → IsFreeList s (front ++ (a ∷ back))
    → IsFreeList (unlink_node s a) (front ++ back)
unfolding unlink_node
unlink_node-IsFreeList s a front back f =
    let n = s.node_next in
    let p = s.node_prev in
    let h = s.freelist_head in
    record {
      linked =
          subst (λ w. Linked (next' n p a back) (prev' n p a back) 0 w (front ++ back))
            (sym (head_after n p a back front h f.linked))
            (unlink_chain n p a back front 0 h f.distinct
              (Linked-Lacks_zero n p 0 h (front ++ (a ∷ back)) f.linked) f.linked);
      distinct = without-Distinct n p a back front f.distinct;
    }
