-- ===== src/Fsd/Reap.antt =====
-- ClientsReapDead of user/services/fsd/tables.c: the end of the sessions whose client has died.
use zuzu.Base.{
  ℕ, zero, suc, ◌+◌, ◌-◌, ◌^◌, Bool, ◌&&◌, Option, none, some, List, [], ◌∷◌, ◌++◌, ◌==◌,
  if◌then◌else◌, get_elem?,
}
use zuzu.Fsd.Tables.{File, Client, Call, handle_query, debug_log, client_drop}

abbrev pub max_clients : ℕ
max_clients = 32

-- The answer r0 and r1 of HandleQuery is ZUZU_OK with the status ERR_DEAD.
abbrev pub is_dead : ℕ × ℕ → Bool
is_dead (r0, r1) = r0 == 0 && r1 == 2 ^ 32 - 9

pub record Reaped : Type 0 where
  pub reaped : ℕ
  pub clients : List Client
  pub files : List File
  pub calls : List Call

abbrev pub none_reaped : List Client → List File → Reaped
none_reaped clients files = record { reaped = 0; clients = clients; files = files; calls = [] }

-- The client `c` in slot `i`, by its handle `live`. `query i h` is the answer of HandleQuery for `h` in
-- the turn of the slot `i`.
unfoldable pub reap_live :
    (ℕ → ℕ → ℕ × ℕ) → ℕ → List Client → List File → Client → Option ℕ → Reaped
unfolding client_drop
reap_live query i clients files c none = none_reaped clients files
reap_live query i clients files c (some h) =
    let dropped = client_drop i c clients files in
    if is_dead (query i h)
    then record {
      reaped = 1;
      clients = dropped.clients;
      files = dropped.files;
      calls = handle_query h ∷ debug_log i ∷ dropped.calls;
    }
    else record { reaped = 0; clients = clients; files = files; calls = handle_query h ∷ [] }

-- One turn of the loop.
unfoldable pub reap_turn : (ℕ → ℕ → ℕ × ℕ) → ℕ → List Client → List File → Option Client → Reaped
unfolding reap_live
reap_turn query i clients files none = none_reaped clients files
reap_turn query i clients files (some c) =
    if c.client_in_use then reap_live query i clients files c c.live else none_reaped clients files

-- The turns from slot `i` on, `n` of them.
unfoldable pub reap_from : (ℕ → ℕ → ℕ × ℕ) → ℕ → ℕ → List Client → List File → Reaped
unfolding reap_turn
reap_from query zero i clients files = none_reaped clients files
reap_from query (suc n) i clients files =
    let turn = reap_turn query i clients files (get_elem? clients i) in
    let rest = reap_from query n (i + 1) turn.clients turn.files in
    record {
      reaped = turn.reaped + rest.reaped;
      clients = rest.clients;
      files = rest.files;
      calls = turn.calls ++ rest.calls;
    }

unfoldable pub clients_reap_dead : (ℕ → ℕ → ℕ × ℕ) → List Client → List File → Reaped
unfolding reap_from
clients_reap_dead query clients files = reap_from query max_clients 0 clients files
