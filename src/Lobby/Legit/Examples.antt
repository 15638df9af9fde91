-- ===== src/Lobby/Legit/Examples.antt =====
-- The theorems on legit checks, with a list of limits that allows one item only.
use ship_server.Base.{ℕ, none, Bool, ◌==◌}
use ship_server.Items.{Item}
use ship_server.Lobby.{Lobby, Client, bb}
use ship_server.Lobby.Flag
use ship_server.Lobby.Sample.{client, team}
use ship_server.Lobby.Legit.{ItemVersions}

abbrev versions : ItemVersions
versions = record { v1 = 1; v2 = 2; gc = 4; xbox = 8 }

abbrev is_saber : Item → ℕ → Bool
is_saber it v = it.data_l0 == 256

abbrev legit_team : Lobby
legit_team = record team { flags = Flag.legit_mode }

abbrev bb_client : Client
bb_client = client bb 100 none 0 0
