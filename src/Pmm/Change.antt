-- ===== src/Pmm/Change.antt =====
-- A frame leaves the free list of kernel/mm/pmm/pmm.c or joins it, and its bit goes with it.
use zuzu.Base.{
  ℕ, ◌+◌, ◌-◌, ◌*◌, ◌/◌, ◌<◌, ◌≡◌, refl, sym, ◌∙◌, ap, ◌≢◌, inl, inr, true, false, List, [], ◌∷◌,
  ◌++◌, arith, ◌==◌, if◌then◌else◌, Bool-cases, length,
}
use mathlib.Core.Bool.{true≢false}
use zuzu.Bitmap
use zuzu.Bitmap.{test-put, test-clr, length-put, length-clr}
use zuzu.Pmm.Defs.{Pmm, pa_to_pfn, is_taken}
use zuzu.Pmm.Chain.{Lacks, Distinct, IsFreeList}
use zuzu.Pmm.Valid.{Member, frame, IsFree, IsConsistent, count-put, count-clr}

pub Member-add : (x y : ℕ) (f g : List ℕ) → Member y (f ++ g) → Member y (f ++ (x ∷ g))
Member-add x y [] g m = inr m
Member-add x y (z ∷ f) g (inl e) = inl e
Member-add x y (z ∷ f) g (inr m) = inr (Member-add x y f g m)

pub Member-drop : (x y : ℕ) (f g : List ℕ) → y ≢ x → Member y (f ++ (x ∷ g)) → Member y (f ++ g)
Member-drop x y [] g ne (inl e) = absurd (ne e)
Member-drop x y [] g ne (inr m) = m
Member-drop x y (z ∷ f) g ne (inl e) = inl e
Member-drop x y (z ∷ f) g ne (inr m) = inr (Member-drop x y f g ne m)

pub Member-at : (x : ℕ) (f g : List ℕ) → Member x (f ++ (x ∷ g))
Member-at x [] g = inl refl
Member-at x (z ∷ f) g = inr (Member-at x f g)

pub Lacks-Member : (x y : ℕ) (l : List ℕ) → Lacks x l → Member y l → y ≢ x
Lacks-Member x y [] h m = absurd m
Lacks-Member x y (z ∷ l) h (inl e) = λ q. h.0 (sym q ∙ e)
Lacks-Member x y (z ∷ l) h (inr m) = Lacks-Member x y l h.1 m

pub no_Member-Lacks : (x : ℕ) (l : List ℕ) → (Member x l → ⊥) → Lacks x l
no_Member-Lacks x [] h = tt
no_Member-Lacks x (z ∷ l) h = (λ e. h (inl e), no_Member-Lacks x l (λ m. h (inr m)))

-- Another member of a list without repetition is another frame.
Distinct-Member : (x y : ℕ) (f g : List ℕ) → Distinct (f ++ (x ∷ g)) → Member y (f ++ g) → y ≢ x
Distinct-Member x y [] g d m = Lacks-Member x y g d.0 m
Distinct-Member x y (z ∷ f) g d (inl e) =
    λ q. Lacks-Member z x (f ++ (x ∷ g)) d.0 (Member-at x f g) (sym q ∙ e)
Distinct-Member x y (z ∷ f) g d (inr m) = Distinct-Member x y f g d.1 m

pub Member-split :
    (x : ℕ) (l : List ℕ) → Member x l → (f : List ℕ) × ((g : List ℕ) × (l ≡ f ++ (x ∷ g)))
Member-split x [] m = absurd m
Member-split x (z ∷ l) (inl e) = ([], (l, ap (λ y. y ∷ l) (sym e)))
Member-split x (z ∷ l) (inr m) =
    let r = Member-split x l m in (z ∷ r.0, (r.1.0, ap (λ k. z ∷ k) r.1.1))

abbrev pub changed : Pmm → List ℕ → ℕ → (ℕ → ℕ) → (ℕ → ℕ) → ℕ → Pmm
changed s bm free n p h = record s {
  bitmap = bm;
  free_frames = free;
  node_next = n;
  node_prev = p;
  freelist_head = h;
}

ne→== : (i j : ℕ) → i ≢ j → i == j ≡ false
ne→== i j ne = ground arith

module _ (s : Pmm) (l : List ℕ) (c : IsConsistent s l) where
  pub frame_eq : (i : ℕ) → i < s.total_frames → frame s i ≡ (s.pfn_base + i) * 4096
  frame_eq i h = omega (arith, c.size, c.addressable)

  pub frame_injective :
      (i j : ℕ) → i < s.total_frames → j < s.total_frames → frame s i ≡ frame s j → i ≡ j
  frame_injective i j h k e = omega (arith, frame_eq i h, frame_eq j k)

  pub frame_pos : (i : ℕ) → i < s.total_frames → 0 < frame s i
  frame_pos i h = omega (arith, frame_eq i h, c.base_pos)

  pub frame_index : (i : ℕ) → i < s.total_frames → pa_to_pfn (frame s i) - s.pfn_base ≡ i
  frame_index i h = omega (arith, frame_eq i h)

  pub inside : (i : ℕ) → i < s.total_frames → i / 8 < length s.bitmap
  inside i h = omega (arith, c.bytes, c.bytes_eq)

  pub is_taken-put :
      (i j : ℕ)
      → i < s.total_frames
      → Bitmap.test 8 (Bitmap.put 8 s.bitmap i) j ≡ (if i == j then true else is_taken s j)
  unfolding is_taken
  is_taken-put i j h = test-put 8 s.bitmap i j (inside i h)

  pub is_taken-clr :
      (i j : ℕ)
      → i < s.total_frames
      → Bitmap.test 8 (Bitmap.clr 8 s.bitmap i) j ≡ (if i == j then false else is_taken s j)
  unfolding is_taken
  is_taken-clr i j h = test-clr 8 s.bitmap i j (inside i h)

module _ (s : Pmm) (i : ℕ) (managed : i < s.total_frames) where
  pub take-IsConsistent :
      (front back : List ℕ) (n p : ℕ → ℕ) (h : ℕ)
      → IsConsistent s (front ++ (frame s i ∷ back))
      → is_taken s i ≡ false
      → IsFreeList (changed s (Bitmap.put 8 s.bitmap i) (s.free_frames - 1) n p h) (front ++ back)
      → IsConsistent (changed s (Bitmap.put 8 s.bitmap i) (s.free_frames - 1) n p h) (front ++ back)
  unfolding is_taken
  take-IsConsistent front back n p h c clear fl =
      let l = front ++ (frame s i ∷ back) in
      record {
        free_list = fl;
        base_pos = c.base_pos;
        size = c.size;
        addressable = c.addressable;
        bytes_eq = length-put 8 s.bitmap i ∙ c.bytes_eq;
        bytes = c.bytes;
        listed = λ y m.
            let f = c.listed y (Member-add (frame s i) y front back m) in
            let ne : i == f.index ≡ false = ne→== i f.index (λ e.
              Distinct-Member (frame s i) y front back c.free_list.distinct m
                (f.address ∙ ap (frame s) (sym e))) in
            record {
              index = f.index;
              managed = f.managed;
              address = f.address;
              clear = is_taken-put s l c i f.index managed ∙ rw ne f.clear;
            };
        complete = λ j lt clr.
            let t = is_taken-put s l c i j managed in
            elim (Bool-cases (i == j)) [
              | inl e ↦ let u = rw e at t in absurd (true≢false (sym u ∙ clr))
              | inr e ↦
                  let u = rw e at t in
                  let ne : i ≢ j = ground arith in
                  Member-drop (frame s i) (frame s j) front back
                    (λ q. ne (sym (frame_injective s l c j i lt managed q)))
                    (c.complete j lt (sym u ∙ clr))
            ];
        counted = omega (
          arith,
          c.counted,
          count-put s.bitmap i (inside s l c i managed) s.total_frames managed clear,
        );
      }

  pub give-IsConsistent :
      (l : List ℕ) (n p : ℕ → ℕ) (h : ℕ)
      → IsConsistent s l
      → is_taken s i ≡ true
      → IsFreeList (changed s (Bitmap.clr 8 s.bitmap i) (s.free_frames + 1) n p h) (frame s i ∷ l)
      → IsConsistent (changed s (Bitmap.clr 8 s.bitmap i) (s.free_frames + 1) n p h) (frame s i ∷ l)
  unfolding is_taken
  give-IsConsistent l n p h c taken fl = record {
    free_list = fl;
    base_pos = c.base_pos;
    size = c.size;
    addressable = c.addressable;
    bytes_eq = length-clr 8 s.bitmap i ∙ c.bytes_eq;
    bytes = c.bytes;
    listed = listed;
    complete = λ j lt clr.
        let t = is_taken-clr s l c i j managed in
        elim (Bool-cases (i == j)) [
          | inl e ↦ let q : j ≡ i = ground arith in inl (ap (frame s) q)
          | inr e ↦ let u = rw e at t in inr (c.complete j lt (sym u ∙ clr))
        ];
    counted = omega (
      arith,
      c.counted,
      count-clr s.bitmap i (inside s l c i managed) s.total_frames managed taken,
    );
  }
    where
      listed :
          (y : ℕ)
          → Member y (frame s i ∷ l)
          → IsFree (changed s (Bitmap.clr 8 s.bitmap i) (s.free_frames + 1) n p h) y
      listed y (inl e) = record {
        index = i;
        managed = managed;
        address = e;
        clear =
            is_taken-clr s l c i i managed ∙ (let r : i == i ≡ true = ground arith in rw r refl);
      }
      listed y (inr m) =
          let f = c.listed y m in
          let t = is_taken-clr s l c i f.index managed in
          record {
            index = f.index;
            managed = f.managed;
            address = f.address;
            clear = elim (Bool-cases (i == f.index)) [
              | inl e ↦ t ∙ rw e refl
              | inr e ↦ t ∙ rw e f.clear
            ];
          }

-- A frame that is taken is not in the free list.
pub taken-Lacks :
    (s : Pmm) (l : List ℕ) (i : ℕ)
    → IsConsistent s l
    → i < s.total_frames
    → is_taken s i ≡ true
    → Lacks (frame s i) l
taken-Lacks s l i c lt taken = no_Member-Lacks (frame s i) l (λ m.
    let f = c.listed (frame s i) m in
    let e : i ≡ f.index = frame_injective s l c i f.index lt f.managed f.address in
    true≢false (sym taken ∙ ap (is_taken s) e ∙ f.clear))
