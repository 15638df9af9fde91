-- ===== src/Lobby/Floor/Examples.antt =====
-- The theorems on the floor at a Blue Burst team with one item on it.
use ship_server.Base.{ℕ, ◌≡◌, refl, true, [], ◌∷◌, pos, arith}
use ship_server.Items.{Item, no_item}
use ship_server.Lobby.{Lobby, bb}
use ship_server.Lobby.Sample.{team}
use ship_server.Lobby.Floor.{ItemData, lobby_add_item2_locked, lobby_remove_item_locked}
use ship_server.Lobby.Floor.Laws.{IsFresh, lobby_add_item2-remove}

abbrev saber : ℕ → Item
saber id = record no_item { data_l0 = 256; item_id = id }

abbrev bb_team : Lobby
bb_team = record team { version = bb; item_id = 8; item_queue = saber 7 ∷ [] }

abbrev handgun : ItemData
handgun = record { d0 = 1536; d1 = 0; d2 = 0; d3 = 0 }

bb_team-IsFresh : IsFresh bb_team
bb_team-IsFresh = (omega arith, tt)

lobby_add_item2-remove_example :
    lobby_remove_item_locked (lobby_add_item2_locked true bb_team (saber 9)).1 9 no_item
    ≡ (pos 0, saber 9, bb_team)
lobby_add_item2-remove_example = lobby_add_item2-remove bb_team (saber 9) no_item refl
