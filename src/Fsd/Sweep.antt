-- ===== src/Fsd/Sweep.antt =====
-- What ClientsReapDead of user/services/fsd/tables.c promises.
use zuzu.Base.{
  ℕ, zero, suc, ◌+◌, ◌≡◌, refl, sym, ap, ◌∙◌, Bool, true, false, ◌&&◌, ◌||◌, Option, none, some,
  List, [], ◌∷◌, arith, leb, ltb, ◌==◌, if◌then◌else◌, Bool-cases, inl, inr, get_elem?, set,
}
use mathlib.Core.Path.{subst}
use mathlib.Core.Option
use zuzu.Fsd.Tables.{File, Client, gone_client, file_get, max_files, client_drop}
use zuzu.Fsd.Files.{Unique}
use zuzu.Fsd.Gone.{close_files-Without}
use zuzu.Fsd.Reap.{max_clients, is_dead, reap_live, reap_turn, reap_from, clients_reap_dead}

abbrev pub gone : Option Client → Option Client
gone = Option.map (λ (c : Client). gone_client c.gen)

-- The sessions in the slots of which `ended` holds are over: the entry is cleared but for its
-- generation and no file below `max_files` is open; all else is as before.
pub record Swept (ended : ℕ → Bool) (clients : List Client) (files : List File)
    (clients' : List Client) (files' : List File) : Type 0 where
  pub unique : Unique files'
  pub entries :
      (s : ℕ)
      → get_elem? clients' s ≡ (if ended s then gone (get_elem? clients s) else get_elem? clients s)
  pub gets :
      (s d : ℕ)
      → file_get s d files' ≡ (if ended s && ltb d max_files then none else file_get s d files)

gone_twice : (o : Option Client) → gone (gone o) ≡ gone o
gone_twice none = refl
gone_twice (some c) = refl

Swept-same :
    (p q : ℕ → Bool) {cs cs' : List Client} {fs fs' : List File}
    → ((s : ℕ) → p s ≡ q s)
    → Swept p cs fs cs' fs'
    → Swept q cs fs cs' fs'
Swept-same p q {cs} {cs'} {fs} {fs'} e w = record {
  unique = w.unique;
  entries = λ s.
      subst (λ (t : Bool). get_elem? cs' s ≡ (if t then gone (get_elem? cs s) else get_elem? cs s))
        (e s) (w.entries s);
  gets = λ s d.
      subst
        (λ (t : Bool). file_get s d fs' ≡ (if t && ltb d max_files then none else file_get s d fs))
        (e s) (w.gets s d);
}

Swept-none : (cs : List Client) (fs : List File) → Unique fs → Swept (λ s. false) cs fs cs fs
Swept-none cs fs u = record { unique = u; entries = λ s. refl; gets = λ s d. refl }

Swept-then :
    (p q : ℕ → Bool) (cs cs1 cs2 : List Client) (fs fs1 fs2 : List File)
    → Swept p cs fs cs1 fs1
    → Swept q cs1 fs1 cs2 fs2
    → Swept (λ s. p s || q s) cs fs cs2 fs2
Swept-then p q cs cs1 cs2 fs fs1 fs2 a b = record {
  unique = b.unique;
  entries =
      λ s. b.entries s ∙ entry_then (p s) (q s) (get_elem? cs s) (get_elem? cs1 s) (a.entries s);
  gets = λ s d.
      b.gets s d
      ∙ file_then (p s) (q s) (ltb d max_files) (file_get s d fs) (file_get s d fs1) (a.gets s d);
}
  where
    entry_then :
        (x y : Bool) (o o1 : Option Client)
        → o1 ≡ (if x then gone o else o)
        → (if y then gone o1 else o1) ≡ (if x || y then gone o else o)
    entry_then true true o o1 e = ap gone e ∙ gone_twice o
    entry_then true false o o1 e = e
    entry_then false true o o1 e = ap gone e
    entry_then false false o o1 e = e

    file_then :
        (x y z : Bool) (o o1 : Option ℕ)
        → o1 ≡ (if x && z then none else o)
        → (if y && z then none else o1) ≡ (if (x || y) && z then none else o)
    file_then true true true o o1 e = refl
    file_then true true false o o1 e = e
    file_then true false true o o1 e = e
    file_then true false false o o1 e = e
    file_then false true true o o1 e = refl
    file_then false true false o o1 e = e
    file_then false false true o o1 e = e
    file_then false false false o o1 e = e

-- A write to the entry of `c` in slot `i`.
set-gone :
    (cs : List Client) (i : ℕ) (c : Client) (s : ℕ)
    → get_elem? cs i ≡ some c
    → get_elem? (set cs i (gone_client c.gen)) s
      ≡ (if i == s then gone (get_elem? cs s) else get_elem? cs s)
set-gone [] i c s e = absurd (cc)
set-gone (x ∷ cs) zero c zero e = ap gone (sym e)
set-gone (x ∷ cs) zero c (suc s) e = let k : (0 == suc s) ≡ false = ground arith in rw k refl
set-gone (x ∷ cs) (suc i) c zero e = let k : (suc i == 0) ≡ false = ground arith in rw k refl
set-gone (x ∷ cs) (suc i) c (suc s) e =
    let k : (i == s) ≡ (suc i == suc s) = ground arith in
    set-gone cs i c s e ∙ ap (λ (t : Bool). if t then gone (get_elem? cs s) else get_elem? cs s) k

-- ClientDrop ends the session in one slot.
pub client_drop-Swept :
    (i : ℕ) (c : Client) (cs : List Client) (fs : List File)
    → get_elem? cs i ≡ some c
    → Unique fs
    → Swept (λ s. i == s) cs fs (client_drop i c cs fs).clients (client_drop i c cs fs).files
unfolding client_drop
client_drop-Swept i c cs fs e u =
    let w = close_files-Without max_files 0 i fs u in
    record {
      unique = w.unique;
      entries = λ s. set-gone cs i c s e;
      gets = λ s d.
          let k : (i == s && (leb 0 d && ltb d (0 + max_files))) ≡ (i == s && ltb d max_files) =
            ground arith in
          w.gets s d ∙ ap (λ (t : Bool). if t then none else file_get s d fs) k;
    }

-- Has a client with a handle `live` died, by the answers of HandleQuery?
abbrev pub handle_died : (ℕ → ℕ × ℕ) → Option ℕ → Bool
handle_died answer none = false
handle_died answer (some h) = is_dead (answer h)

-- Is there a client in an entry, and has it died?
abbrev pub has_died : (ℕ → ℕ × ℕ) → Option Client → Bool
has_died answer none = false
has_died answer (some c) = c.client_in_use && handle_died answer c.live

reap_live-Swept :
    (query : ℕ → ℕ → ℕ × ℕ) (i : ℕ) (cs : List Client) (fs : List File) (c : Client)
    (live : Option ℕ)
    → get_elem? cs i ≡ some c
    → Unique fs
    → Swept
        (λ s. i == s && handle_died (query i) live)
        cs
        fs
        (reap_live query i cs fs c live).clients
        (reap_live query i cs fs c live).files
unfolding reap_live
reap_live-Swept query i cs fs c none e u =
    Swept-same (λ s. false) (λ s. i == s && false) (λ s. ground arith) (Swept-none cs fs u)
reap_live-Swept query i cs fs c (some h) e u = elim (Bool-cases (is_dead (query i h))) [
  | inl k ↦ rw k (
      Swept-same (λ s. i == s) (λ s. i == s && true) (λ s. ground arith)
        (client_drop-Swept i c cs fs e u))
  | inr k ↦
      rw k (Swept-same (λ s. false) (λ s. i == s && false) (λ s. ground arith) (Swept-none cs fs u))
]

reap_turn-Swept :
    (query : ℕ → ℕ → ℕ × ℕ) (i : ℕ) (cs : List Client) (fs : List File) (o : Option Client)
    → get_elem? cs i ≡ o
    → Unique fs
    → Swept
        (λ s. i == s && has_died (query i) o)
        cs
        fs
        (reap_turn query i cs fs o).clients
        (reap_turn query i cs fs o).files
unfolding reap_turn
reap_turn-Swept query i cs fs none e u =
    Swept-same (λ s. false) (λ s. i == s && false) (λ s. ground arith) (Swept-none cs fs u)
reap_turn-Swept query i cs fs (some c) e u = elim (Bool-cases c.client_in_use) [
  | inl k ↦ rw k (reap_live-Swept query i cs fs c c.live e u)
  | inr k ↦
      rw k (Swept-same (λ s. false) (λ s. i == s && false) (λ s. ground arith) (Swept-none cs fs u))
]

-- The slots from `i` on, `n` of them, whose client has died.
abbrev pub died_from : (ℕ → ℕ → ℕ × ℕ) → ℕ → ℕ → List Client → ℕ → Bool
died_from query i n cs s = (leb i s && ltb s (i + n)) && has_died (query s) (get_elem? cs s)

-- The slot `i` and those behind it, whose entries the turn of `i` does not change.
died_split :
    (query : ℕ → ℕ → ℕ × ℕ) (i n : ℕ) (cs cs1 : List Client) (s : ℕ)
    → ((i == s) ≡ false → get_elem? cs1 s ≡ get_elem? cs s)
    → (i == s && has_died (query i) (get_elem? cs i) || died_from query (i + 1) n cs1 s)
      ≡ died_from query i (suc n) cs s
died_split query i n cs cs1 s same = elim (Bool-cases (i == s)) [
  | inl k ↦
      let p : i ≡ s = ground arith in
      let here : (leb i s && ltb s (i + suc n)) ≡ true = ground arith in
      let past : (leb (i + 1) s && ltb s (i + 1 + n)) ≡ false = ground arith in
      rw (k, here, past)
        (or_false (has_died (query i) (get_elem? cs i))
          ∙ ap (λ j. has_died (query j) (get_elem? cs j)) p)
  | inr k ↦
      let range : (leb (i + 1) s && ltb s (i + 1 + n)) ≡ (leb i s && ltb s (i + suc n)) =
        ground arith in
      rw (k, range, same k) refl
]
  where
    or_false : (b : Bool) → (b || false) ≡ b
    or_false true = refl
    or_false false = refl

reap_from-Swept :
    (query : ℕ → ℕ → ℕ × ℕ) (n i : ℕ) (cs : List Client) (fs : List File)
    → Unique fs
    → Swept
        (died_from query i n cs)
        cs
        fs
        (reap_from query n i cs fs).clients
        (reap_from query n i cs fs).files
unfolding reap_from
reap_from-Swept query zero i cs fs u =
    Swept-same (λ s. false) (died_from query i zero cs)
      (λ s. let k : (leb i s && ltb s (i + zero)) ≡ false = ground arith in rw k refl)
      (Swept-none cs fs u)
reap_from-Swept query (suc n) i cs fs u =
    let turn = reap_turn query i cs fs (get_elem? cs i) in
    let rest = reap_from query n (i + 1) turn.clients turn.files in
    let a = reap_turn-Swept query i cs fs (get_elem? cs i) refl u in
    let b = reap_from-Swept query n (i + 1) turn.clients turn.files a.unique in
    let p = λ (s : ℕ). i == s && has_died (query i) (get_elem? cs i) in
    let q = died_from query (i + 1) n turn.clients in
    Swept-same (λ s. p s || q s) (died_from query i (suc n) cs)
      (λ s. died_split query i n cs turn.clients s (λ k.
        a.entries s
        ∙ ap
            (λ (t : Bool).
              if t && has_died (query i) (get_elem? cs i)
              then gone (get_elem? cs s)
              else get_elem? cs s)
            k))
      (Swept-then p q cs turn.clients rest.clients fs turn.files rest.files a b)

-- Where no file is in the table twice, ClientsReapDead ends exactly the sessions of the clients in use,
-- among the first 32, whose handle answers that its owner is dead: such an entry is cleared but for its
-- generation and none of the file numbers 0 to 63 of the client is open any more, which are all that
-- FileOpen gives out. All other entries and files are as before.
pub clients_reap_dead-Swept :
    (query : ℕ → ℕ → ℕ × ℕ) (cs : List Client) (fs : List File)
    → Unique fs
    → Swept
        (died_from query 0 max_clients cs)
        cs
        fs
        (clients_reap_dead query cs fs).clients
        (clients_reap_dead query cs fs).files
unfolding clients_reap_dead
clients_reap_dead-Swept query cs fs u = reap_from-Swept query max_clients 0 cs fs u
