-- ===== src/Fsd/Clients.antt =====
-- What ClientRegister of user/services/fsd/tables.c promises of badges.
use zuzu.Base.{
  ℕ, zero, suc, ◌+◌, ◌*◌, ◌/◌, ◌%◌, ◌^◌, ◌<◌, ◌≡◌, refl, sym, ◌∙◌, ap, ◌≢◌, true, false, not, ◌||◌,
  Option, none, some, List, [], ◌∷◌, arith, ◌==◌, get_elem?, length, Bool-cases, inl, inr,
}
use mathlib.Core.Option.{some-injective, none-ne-some}
use zuzu.Fsd.Tables.{
  Err, is_ok, Client, badge_of, badge_slot, badge_gen, next_gen, bad_size, new_client, Registered,
  refused, registered, behind_client, register_from, client_register, client_at, client_find,
}

-- The client comes into a free slot, and no other slot changes; the badge names slot and generation.
pub data Registration (shm size i0 : ℕ) (cs : List Client) : Registered → Type 0 where
  refusal : (e : Err) → Registration shm size i0 cs (refused e)
  given :
      (i va badge : ℕ) (c : Client) (cs' : List Client)
      → badge ≡ badge_of (next_gen c.gen) (i0 + i)
      → get_elem? cs i ≡ some c
      → c.client_in_use ≡ false
      → get_elem? cs' i ≡ some (new_client c shm va size)
      → ((j : ℕ) → i ≢ j → get_elem? cs' j ≡ get_elem? cs j)
      → Registration shm size i0 cs (registered badge cs')

behind-Registration :
    (shm size i0 : ℕ) (c : Client) (cs : List Client) (r : Registered)
    → Registration shm size (i0 + 1) cs r
    → Registration shm size i0 (c ∷ cs) (behind_client c r)
behind-Registration shm size i0 c cs r (refusal e) = refusal e
behind-Registration shm size i0 c cs r (given i va badge d cs' e at free new same) =
    let q : i0 + 1 + i ≡ i0 + suc i = omega arith in
    given (suc i) va badge d (c ∷ cs') (e ∙ ap (badge_of (next_gen d.gen)) q) at free new others
  where
    others : (j : ℕ) → suc i ≢ j → get_elem? (c ∷ cs') j ≡ get_elem? (c ∷ cs) j
    others zero ne = refl
    others (suc j) ne = same j (λ p. ne (ap suc p))

here :
    (shm size i0 va : ℕ) (c : Client) (cs : List Client)
    → c.client_in_use ≡ false
    → Registration shm size i0
        (c ∷ cs)
        (registered (badge_of (next_gen c.gen) i0) (new_client c shm va size ∷ cs))
here shm size i0 va c cs free =
    let q : i0 ≡ i0 + 0 = omega arith in
    given 0 va _ c (new_client c shm va size ∷ cs) (ap (badge_of (next_gen c.gen)) q) refl free refl
      others
  where
    others : (j : ℕ) → 0 ≢ j → get_elem? (new_client c shm va size ∷ cs) j ≡ get_elem? (c ∷ cs) j
    others zero ne = absurd (ne refl)
    others (suc j) ne = refl

register_from-Registration :
    (i0 shm size : ℕ) (va : Option ℕ) (cs : List Client)
    → Registration shm size i0 cs (register_from i0 shm size va cs)
unfolding register_from
register_from-Registration i0 shm size va [] = refusal _
register_from-Registration i0 shm size none (c ∷ cs) =
    let ih = register_from-Registration (i0 + 1) shm size none cs in
    elim (Bool-cases c.client_in_use) [
      | inl u ↦ simp u (behind-Registration shm size i0 c cs _ ih)
      | inr u ↦ simp u (refusal _)
    ]
register_from-Registration i0 shm size (some va) (c ∷ cs) =
    let ih = register_from-Registration (i0 + 1) shm size (some va) cs in
    elim (Bool-cases c.client_in_use) [
      | inl u ↦ simp u (behind-Registration shm size i0 c cs _ ih)
      | inr u ↦ simp u (here shm size i0 va c cs u)
    ]

get_elem?-lt : (cs : List Client) (i : ℕ) (c : Client) → get_elem? cs i ≡ some c → i < length cs
get_elem?-lt [] i c e = absurd (none-ne-some c e)
get_elem?-lt (d ∷ cs) zero c e = omega arith
get_elem?-lt (d ∷ cs) (suc i) c e = omega (arith, get_elem?-lt cs i c e)

next_gen-range : (g : ℕ) → (0 < next_gen g) × (next_gen g < 2 ^ 24)
unfolding next_gen
next_gen-range g = (ground arith, ground arith)

-- A client gets a slot that was free. Its badge finds it and is the only one that does; the badges of
-- all other slots find what they found before.
pub data Badged (clients : List Client) : Registered → Type 0 where
  no_badge : (e : Err) → Badged clients (refused e)
  badged :
      (i badge : ℕ) (c : Client) (clients' : List Client)
      → get_elem? clients i ≡ some c
      → c.client_in_use ≡ false
      → client_find badge clients' ≡ some i
      → ((b : ℕ) → b < 2 ^ 32 → client_find b clients' ≡ some i → b ≡ badge)
      → ((b : ℕ) → i ≢ badge_slot b → client_find b clients' ≡ client_find b clients)
      → Badged clients (registered badge clients')

module _ (shm va size i : ℕ) (c : Client) (clients' : List Client) (lt : i < 32)
    (new : get_elem? clients' i ≡ some (new_client c shm va size)) where
  abbrev badge : ℕ
  badge = badge_of (next_gen c.gen) i

  badge_eq : badge ≡ next_gen c.gen * 256 + i
  badge_eq = let r = next_gen-range c.gen in omega (arith, r.0, r.1)

  found : client_find badge clients' ≡ some i
  unfolding client_find
  found =
      let r = next_gen-range c.gen in
      let e = badge_eq in
      let nz : badge == 0 ≡ false = ground (arith, e) in
      let s : badge % 256 ≡ i = omega (arith, e) in
      let g : badge % 2 ^ 32 / 256 ≡ next_gen c.gen = omega (arith, e, r.1) in
      let same : next_gen c.gen == next_gen c.gen ≡ true = ground arith in
      rw (nz, s, new, g, same) (ap some s)

  only : (b : ℕ) → b < 2 ^ 32 → client_find b clients' ≡ some i → b ≡ badge
  unfolding client_find
  only b bl e = elim (Bool-cases (b == 0)) [
    | inl z ↦ let e' = rw z at e in absurd (none-ne-some i e')
    | inr nz ↦ let e' = rw nz at e in at_slot (get_elem? clients' (badge_slot b)) refl e'
  ]
    where
      at_slot :
          (o : Option Client)
          → get_elem? clients' (badge_slot b) ≡ o
          → client_at b o ≡ some i
          → b ≡ badge
      at_slot none q k = absurd (none-ne-some i k)
      at_slot (some d) q k = elim (Bool-cases (not d.client_in_use || not (d.gen == badge_gen b))) [
        | inl t ↦ let k' = rw t at k in absurd (none-ne-some i k')
        | inr t ↦
            let k' = rw t at k in
            let s : badge_slot b ≡ i = some-injective (badge_slot b) i k' in
            let w = rw s at q in
            let p : new_client c shm va size ≡ d =
              some-injective (new_client c shm va size) d (sym new ∙ w) in
            let g : next_gen c.gen ≡ d.gen = ap (λ x. x.gen) p in
            let h : d.gen ≡ badge_gen b = ground arith in omega (arith, badge_eq, s, g, h)
      ]

other_badge :
    (clients clients' : List Client) (i b : ℕ)
    → ((j : ℕ) → i ≢ j → get_elem? clients' j ≡ get_elem? clients j)
    → i ≢ badge_slot b
    → client_find b clients' ≡ client_find b clients
unfolding client_find
other_badge clients clients' i b same ne =
    let e = same (badge_slot b) ne in
    elim (Bool-cases (b == 0)) [ inl z ↦ rw z refl | inr z ↦ rw z (ap (client_at b) e) ]

from-Badged :
    (shm size : ℕ) (clients : List Client) (r : Registered)
    → length clients ≡ 32
    → Registration shm size 0 clients r
    → Badged clients r
from-Badged shm size clients r n (refusal e) = no_badge e
from-Badged shm size clients r n (given i va bd c clients' e at free new same) =
    let lt : i < 32 = omega (arith, get_elem?-lt clients i c at) in
    let z : 0 + i ≡ i = omega arith in
    let e' : bd ≡ badge_of (next_gen c.gen) i = e ∙ ap (badge_of (next_gen c.gen)) z in
    badged i bd c clients' at free
      (ap (λ x. client_find x clients') e' ∙ found shm va size i c clients' lt new)
      (λ b h k. only shm va size i c clients' lt new b h k ∙ sym e')
      (λ b ne. other_badge clients clients' i b same ne)

-- In a table of 32 slots a client that registers gets one that was free, with a badge that finds it and
-- is the only one that does; the badges of the other slots find what they found before.
pub client_register-Badged :
    (shm : ℕ) (rc : Err) (size : ℕ) (va : Option ℕ) (clients : List Client)
    → length clients ≡ 32
    → Badged clients (client_register shm rc size va clients)
unfolding client_register
client_register-Badged shm rc size va clients n =
    let w = size % 2 ^ 32 in
    elim (Bool-cases (is_ok rc)) [
      | inl k ↦ elim (Bool-cases (bad_size w)) [
        | inl b ↦ rw (k, b) (no_badge _)
        | inr b ↦
            rw (k, b)
              (from-Badged shm w clients _ n (register_from-Registration 0 shm w va clients))
      ]
      | inr k ↦ rw k (no_badge rc)
    ]
