-- ===== src/Lobby/Slots/Examples.antt =====
-- The theorems on slots at a version 2 team of three clients: 10 leads from slot 0, 11 sits in
-- slot 1 and 12 in slot 3.
use ship_server.Base.{
  ℕ, ◌-◌, ◌≡◌, ◌<◌, inl, refl, [], ◌∷◌, none, some, ltb, ◌==◌, if◌then◌else◌, pos, neg, arith,
  get_elem?, get_or, set,
}
use ship_server.Lobby.{Client, World, dcv2, gc, type_lobby, holds}
use ship_server.Lobby.Sample.{client, team}
use ship_server.Lobby.Slots.{
  lobby_add_client_locked, lobby_remove_client_locked, lobby_elect_leader_locked,
  lobby_elect_leader_cross_locked, elect,
}
use ship_server.Lobby.Slots.Count.{IsCounted, lobby_add_client_locked-IsCounted}
use ship_server.Lobby.Slots.Join.{lobby_add_client_locked-seat}
use ship_server.Lobby.Slots.Leave.{
  lobby_remove_client_locked-IsCounted, lobby_remove_client_locked-leader,
}
use ship_server.Lobby.Slots.Leaderless.{lobby_remove_client_locked-leaderless}

-- Client 12 came before 11; 11 is of version 2, 12 of GC. Client 20 is in no lobby.
abbrev people : ℕ → Client
people k =
    if k == 10
    then client dcv2 100 (some 1) 0 50
    else if k == 11
    then client dcv2 101 (some 1) 1 70
    else if k == 12
    then client gc 102 (some 1) 3 60
    else client dcv2 103 none 0 0

abbrev world : World
world = record {
  clients = people;
  lobbies = λ l. team;
  block_lobbies = 1 ∷ [];
  num_games = 1;
  out = [];
}

team-IsCounted : IsCounted team
team-IsCounted = record { size = refl; two = omega arith; twelve = omega arith; counted = refl }

-- The oldest of the rest leads next; across platforms, the oldest of an older version than GC.
test-elect : lobby_elect_leader_locked 90 people team ≡ some 3
unfolding lobby_elect_leader_locked elect
test-elect = refl

test-elect_cross : (lobby_elect_leader_cross_locked 90 people team).0 ≡ some 1
unfolding lobby_elect_leader_cross_locked elect
test-elect_cross = refl

lobby_add_client_locked-IsCounted_example :
    let (code, w') = lobby_add_client_locked 90 world 20 1 in
    (code ≡ (if ltb 3 4 then pos 0 else neg 1)) × IsCounted (w'.lobbies 1)
lobby_add_client_locked-IsCounted_example =
    lobby_add_client_locked-IsCounted 90 world 20 1 team-IsCounted

lobby_add_client_locked-seat_example :
    let (code, w') = lobby_add_client_locked 90 world 20 1 in
    (i : ℕ) × (code ≡ pos 0)
    × (i < 4)
    × (get_or team.clients i none ≡ none)
    × ((w'.lobbies 1).clients ≡ set team.clients i (some 20))
    × ((w'.lobbies 1).num_clients ≡ 4)
    × ((w'.clients 20).client_id ≡ i)
    × ((w'.clients 20).cur_lobby ≡ some 1)
    × ((w'.clients 20).join_time ≡ 90)
    × ((w'.lobbies 1).leader_id ≡ (if 3 == 0 then i else 0))
lobby_add_client_locked-seat_example =
    lobby_add_client_locked-seat 90 world 20 1 team-IsCounted (omega arith)

lobby_remove_client_locked-IsCounted_example :
    let (code, w') = lobby_remove_client_locked 90 world 12 3 1 in
    (code ≡ (
      if holds (get_or team.clients 3 none) 12
      then (if team.type == type_lobby then pos 0 else if 3 - 1 == 0 then pos 1 else pos 0)
      else neg 1))
    × IsCounted (w'.lobbies 1)
lobby_remove_client_locked-IsCounted_example =
    lobby_remove_client_locked-IsCounted 90 world 12 3 1 team-IsCounted (omega arith)

lobby_remove_client_locked-leader_example :
    let lob' = (lobby_remove_client_locked 90 world 10 0 1).1.lobbies 1 in
    (e : ℕ) × (get_elem? lob'.clients lob'.leader_id ≡ some (some e))
lobby_remove_client_locked-leader_example =
    lobby_remove_client_locked-leader 90 world 10 1 1 11 refl refl (λ e. omega arith) (omega arith)

-- In second 60 the two others have not joined before now.
lobby_remove_client_locked-leaderless_example :
    let lob' = (lobby_remove_client_locked 60 world 10 0 1).1.lobbies 1 in
    (lob'.leader_id ≡ 0) × (get_or lob'.clients lob'.leader_id none ≡ none)
lobby_remove_client_locked-leaderless_example =
    lobby_remove_client_locked-leaderless 60 world 10 1 refl
      (tt, (omega arith, (tt, (omega arith, tt)))) (inl refl)
