-- ===== src/Fsd/Tests.antt =====
-- The theorems of `Fsd` on a table of three entries, of which one is open, and on 32 free slots.
use zuzu.Base.{ℕ, ◌-◌, ◌^◌, true, set, replicate, some, refl, List, [], ◌∷◌}
use zuzu.Fsd.Tables.{
  File, no_file, entry, Client, gone_client, client_register, ok, file_get, file_close,
}
use zuzu.Fsd.Files.{Unique}
use zuzu.Fsd.Clients.{Badged, client_register-Badged}
use zuzu.Fsd.Reap.{clients_reap_dead}
use zuzu.Fsd.Sweep.{Swept, died_from, clients_reap_dead-Swept}
use zuzu.Fsd.Close.{CloseOutcome, file_close-CloseOutcome}

abbrev one_open : List File
one_open = entry 7 0 500 ∷ no_file ∷ no_file ∷ []

one_open-Unique : Unique one_open
unfolding file_get zuzu.Fsd.Tables.holds
one_open-Unique = ((λ t. refl), ((λ t. refl), ((λ t. refl), tt)))

file_close-CloseOutcome_example : CloseOutcome 7 0 one_open (file_close 7 0 one_open)
file_close-CloseOutcome_example = file_close-CloseOutcome 7 0 one_open one_open-Unique

abbrev no_clients : List Client
no_clients = replicate 32 (gone_client 3)

client_register-Badged_example :
    Badged no_clients (client_register 9 ok 8192 (some 4096) no_clients)
client_register-Badged_example = client_register-Badged 9 ok 8192 (some 4096) no_clients refl

-- A client in slot 7 with the handle 5 for its life.
abbrev watched : Client
watched = record {
  client_in_use = true;
  gen = 3;
  shm_handle = 9;
  live = some 5;
  buf = 4096;
  shm_size = 8192;
}

abbrev one_client : List Client
one_client = set no_clients 7 watched

-- HandleQuery says ERR_DEAD of each handle.
abbrev all_dead : ℕ → ℕ → ℕ × ℕ
all_dead i h = (0, 2 ^ 32 - 9)

clients_reap_dead-Swept_example :
    Swept
      (died_from all_dead 0 32 one_client)
      one_client
      one_open
      (clients_reap_dead all_dead one_client one_open).clients
      (clients_reap_dead all_dead one_client one_open).files
clients_reap_dead-Swept_example =
    clients_reap_dead-Swept all_dead one_client one_open one_open-Unique
