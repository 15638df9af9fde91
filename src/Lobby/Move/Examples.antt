-- ===== src/Lobby/Move/Examples.antt =====
-- The theorems on moves at a block of two lobbies and a team.
use ship_server.Base.{
  Bool, false, set, ℕ, ◌≡◌, ◌≢◌, refl, true, false, List, [], ◌∷◌, Option, none, some, ◌==◌,
  if◌then◌else◌, pos, arith, replicate,
}
use ship_server.Lobby.{Packet, Lobby, World, dcv2, type_lobby}
use ship_server.Lobby.Flag
use ship_server.Lobby.Sample.{client, team}
use ship_server.Lobby.Slots.Count.{IsCounted}
use ship_server.Lobby.Move.{policy, lobby_change_lobby, lobby_remove_player}
use ship_server.Lobby.Move.Gone.{lobby_remove_player-leaves}
use ship_server.Lobby.Move.Swap.{IsMoved}
use ship_server.Lobby.Move.Change.{refusal, lobby_change_lobby-IsMoved}

abbrev default_lobby : ℕ → ℕ → List (Option ℕ) → Lobby
default_lobby id n slots = record team {
  lobby_id = id;
  type = type_lobby;
  flags = 0;
  max_clients = 12;
  num_clients = n;
  clients = slots;
}

-- Client 10 sits in slot 0 of lobby 1; lobby 2 is empty; 3 is a team of three.
abbrev lobbies_of : ℕ → Lobby
lobbies_of l =
    if l == 1
    then default_lobby 1 1 (some 10 ∷ replicate 11 none)
    else if l == 2
    then default_lobby 2 0 (replicate 12 none)
    else record team { clients = some 30 ∷ some 31 ∷ none ∷ some 32 ∷ replicate 8 none }

abbrev world : World
world = record {
  clients = λ c. client dcv2 c (some 1) 0 50;
  lobbies = lobbies_of;
  block_lobbies = 1 ∷ 2 ∷ 3 ∷ [];
  num_games = 1;
  out = [];
}

one-IsCounted : IsCounted (lobbies_of 1)
one-IsCounted = record { size = refl; two = omega arith; twelve = omega arith; counted = refl }

two-IsCounted : IsCounted (lobbies_of 2)
two-IsCounted = record { size = refl; two = omega arith; twelve = omega arith; counted = refl }

three-IsCounted : IsCounted (lobbies_of 3)
three-IsCounted = record { size = refl; two = omega arith; twelve = omega arith; counted = refl }

three-open : refusal true world 10 3 ≡ pos 0
unfolding policy
three-open = refl

lobby_change_lobby-IsMoved_example :
    (w' : World) × (lobby_change_lobby 90 world 10 (some 3) true true true ≡ some (pos 0, w'))
    × IsMoved world 10 1 3 w'
lobby_change_lobby-IsMoved_example =
    lobby_change_lobby-IsMoved 90 world 10 1 3 true true true one-IsCounted three-IsCounted
      (λ e. omega arith) refl (omega arith) refl (omega arith) three-open

-- A team in which a player bursts.
abbrev busy_world : World
busy_world = record world { lobbies = λ l. record (lobbies_of l) { flags = Flag.bursting } }

busy-IsCounted : IsCounted (busy_world.lobbies 3)
busy-IsCounted = record { size = refl; two = omega arith; twelve = omega arith; counted = refl }

three-shut : refusal true busy_world 10 3 ≢ pos 0
unfolding policy
three-shut e = cc

-- Handlers that never fail.
abbrev works : Packet → Bool
works p = false

lobby_remove_player-leaves_example :
    let (code, w') = lobby_remove_player works works 90 world 10 in
    (code ≡ pos 0)
    × ((w'.clients 10).cur_lobby ≡ none)
    × ((w'.lobbies 1).clients ≡ set (lobbies_of 1).clients 0 none)
    × IsCounted (w'.lobbies 1)
lobby_remove_player-leaves_example =
    lobby_remove_player-leaves works works 90 world 10 1 one-IsCounted refl (omega arith) refl
