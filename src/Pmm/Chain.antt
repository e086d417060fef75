-- ===== src/Pmm/Chain.antt =====
-- The free list of kernel/mm/pmm/pmm.c as a doubly linked chain through the frames.
use zuzu.Base.{
  ℕ, ◌<◌, ◌≡◌, refl, sym, ◌∙◌, ap, ◌≢◌, true, false, List, [], ◌∷◌, arith, ◌==◌, Bool-cases, inl,
  inr,
}
use mathlib.Core.Path.{subst}
use zuzu.Pmm.Defs.{Pmm, write, write_if, push_node, pop_node}

-- `a` is not in the list.
abbrev pub Lacks : ℕ → List ℕ → Type 0
Lacks a [] = Unit
Lacks a (x ∷ l) = (a ≢ x) × Lacks a l

abbrev pub Distinct : List ℕ → Type 0
Distinct [] = Unit
Distinct (x ∷ l) = Lacks x l × Distinct l

-- The chain from `a` on, behind `p`, visits exactly the frames of the list.
abbrev pub Linked : (ℕ → ℕ) → (ℕ → ℕ) → ℕ → ℕ → List ℕ → Type 0
Linked next prev p a [] = a ≡ 0
Linked next prev p a (x ∷ l) = (a ≡ x) × ((0 < x) × ((prev x ≡ p) × Linked next prev x (next x) l))

pub write_other : (f : ℕ → ℕ) (a v x : ℕ) → a ≢ x → write f a v x ≡ f x
write_other f a v x ne = let e : a == x ≡ false = ground arith in rw e refl

pub write_self : (f : ℕ → ℕ) (a v : ℕ) → write f a v a ≡ v
write_self f a v = let e : a == a ≡ true = ground arith in rw e refl

pub write_if_other : (f : ℕ → ℕ) (a v x : ℕ) → a ≢ x → write_if f a v x ≡ f x
write_if_other f a v x ne = elim (Bool-cases (a == 0)) [
  | inl z ↦ rw z refl
  | inr nz ↦ rw nz (write_other f a v x ne)
]

-- Writes to other frames leave a chain as it is.
pub Linked-write_next :
    (next prev : ℕ → ℕ) (b v p a : ℕ) (l : List ℕ)
    → Lacks b l
    → Linked next prev p a l
    → Linked (write next b v) prev p a l
Linked-write_next next prev b v p a [] out h = h
Linked-write_next next prev b v p a (x ∷ l) out h =
    let e = write_other next b v x out.0 in
    (h.0, (h.1.0, (h.1.1.0, rw e (Linked-write_next next prev b v x (next x) l out.1 h.1.1.1))))

pub Linked-write_prev :
    (next prev : ℕ → ℕ) (b v p a : ℕ) (l : List ℕ)
    → Lacks b l
    → Linked next prev p a l
    → Linked next (write_if prev b v) p a l
Linked-write_prev next prev b v p a [] out h = h
Linked-write_prev next prev b v p a (x ∷ l) out h =
    let e = write_if_other prev b v x out.0 in
    (h.0, (h.1.0, (e ∙ h.1.1.0, Linked-write_prev next prev b v x (next x) l out.1 h.1.1.1)))

-- The head of a chain that is not 0 is its first frame.
pub head_of :
    (next prev : ℕ → ℕ) (a : ℕ) (l : List ℕ)
    → Linked next prev 0 a l
    → a ≢ 0
    → (r : List ℕ) × (l ≡ a ∷ r)
head_of next prev a [] h ne = absurd (ne h)
head_of next prev a (x ∷ r) h ne = (r, ap (λ y. y ∷ r) (sym h.0))

pub Linked-Lacks_zero :
    (next prev : ℕ → ℕ) (p a : ℕ) (l : List ℕ) → Linked next prev p a l → Lacks 0 l
Linked-Lacks_zero next prev p a [] h = tt
Linked-Lacks_zero next prev p a (x ∷ l) h =
    (λ e. absurd (omega (arith, h.1.0)), Linked-Lacks_zero next prev x (next x) l h.1.1.1)

-- The free list of a state.
pub record IsFreeList (s : Pmm) (l : List ℕ) : Type 0 where
  pub linked : Linked s.node_next s.node_prev 0 s.freelist_head l
  pub distinct : Distinct l

pub nonzero : (x : ℕ) → 0 < x → x == 0 ≡ false
nonzero x h = ground arith

-- A frame in front of a chain.
push_chain :
    (n p : ℕ → ℕ) (h pa : ℕ) (l : List ℕ)
    → 0 < pa
    → Lacks pa l
    → Distinct l
    → Linked n p 0 h l
    → Linked (write n pa h) (write_if (write p pa 0) h pa) 0 pa (pa ∷ l)
push_chain n p h pa [] pos out d z =
    let at_zero : write_if (write p pa 0) h pa pa ≡ 0 = rw z (write_self p pa 0) in
    (refl, (pos, (at_zero, write_self n pa h ∙ z)))
push_chain n p h pa (x ∷ l) pos out d c =
    subst (λ y. Linked (write n pa y) (write_if (write p pa 0) y pa) 0 pa (pa ∷ x ∷ l)) (sym c.0)
      (refl, (pos, (first, (write_self n pa x, (c.1.0, (second, rest))))))
  where
    nz : x == 0 ≡ false
    nz = nonzero x c.1.0

    first : write_if (write p pa 0) x pa pa ≡ 0
    first = rw nz (write_other (write p pa 0) x pa pa (λ q. out.0 (sym q)) ∙ write_self p pa 0)

    second : write_if (write p pa 0) x pa x ≡ pa
    second = rw nz (write_self (write p pa 0) x pa)

    old : Linked (write n pa x) (write p pa 0) x (n x) l
    old =
        let w = Linked-write_prev n p pa 0 x (n x) l out.1 c.1.1.1 in
        let w' = rw (nonzero pa pos) at w in
        Linked-write_next n (write p pa 0) pa x x (n x) l out.1 w'

    rest : Linked (write n pa x) (write_if (write p pa 0) x pa) x (write n pa x x) l
    rest =
        subst (λ y. Linked (write n pa x) (write_if (write p pa 0) x pa) x y l)
          (sym (write_other n pa x x out.0))
          (Linked-write_prev (write n pa x) (write p pa 0) x pa x (n x) l d.0 old)

-- A chain without its first frame.
pop_chain :
    (n p : ℕ → ℕ) (x : ℕ) (l : List ℕ)
    → Distinct l
    → Linked n p x (n x) l
    → Linked n (write_if p (n x) 0) 0 (n x) l
pop_chain n p x [] d c = c
pop_chain n p x (y ∷ l) d c =
    subst (λ v. Linked n (write_if p v 0) 0 v (y ∷ l)) (sym c.0)
      (
        refl,
        (
          c.1.0,
          (
            rw (nonzero y c.1.0) (write_self p y 0),
            Linked-write_prev n p y 0 y (n y) l d.0 c.1.1.1,
          ),
        ),
      )

pub push_node-IsFreeList :
    (s : Pmm) (pa : ℕ) (l : List ℕ)
    → 0 < pa
    → Lacks pa l
    → IsFreeList s l
    → IsFreeList (push_node s pa) (pa ∷ l)
unfolding push_node
push_node-IsFreeList s pa l pos out f = record {
  linked = push_chain s.node_next s.node_prev s.freelist_head pa l pos out f.distinct f.linked;
  distinct = (out, f.distinct);
}

pub pop_node-IsFreeList :
    (s : Pmm) (x : ℕ) (l : List ℕ) → IsFreeList s (x ∷ l) → IsFreeList (pop_node s) l
unfolding pop_node
pop_node-IsFreeList s x l f = record {
  linked =
      subst (λ y. Linked s.node_next (write_if s.node_prev (s.node_next y) 0) 0 (s.node_next y) l)
        (sym f.linked.0) (pop_chain s.node_next s.node_prev x l f.distinct.1 f.linked.1.1.1);
  distinct = f.distinct.1;
}
