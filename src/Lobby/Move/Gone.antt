-- ===== src/Lobby/Move/Gone.antt =====
-- src/lobby.c: a client that leaves its lobby for good.
use ship_server.Base.{
  ℕ, ◌<◌, ◌≡◌, refl, ap, ◌∙◌, Bool, Option, none, some, ℤ, pos, get_or, set, arith, ==_refl,
}
use ship_server.Lobby.{Packet, World}
use ship_server.Lobby.Queue.{lobby_handle_done_burst}
use ship_server.Lobby.Slots.{lobby_remove_client_locked}
use ship_server.Lobby.Slots.Count.{IsCounted}
use ship_server.Lobby.Slots.Leave.{
  remove-vacates, vacate-slots, lobby_remove_client_locked-IsCounted,
}
use ship_server.Lobby.Move.{
  end_burst, before_removal, after_removal, remove_player_from, lobby_remove_player,
  lobby_destroy_locked,
}
use ship_server.Lobby.Move.Seats.{SameSeats, SameSeats-IsCounted, removed-pos}

-- The end of a burst changes no seat and no client.
end_burst-seats :
    (bcast one : Packet → Bool) (w : World) (l : ℕ)
    → SameSeats ((end_burst bcast one w l).lobbies l) (w.lobbies l)
unfolding end_burst lobby_handle_done_burst
end_burst-seats bcast one w l = rw (==_refl l) (refl, refl, refl)

before_removal-seats :
    (bcast one : Packet → Bool) (w : World) (c l : ℕ)
    → SameSeats ((before_removal bcast one w c l).lobbies l) (w.lobbies l)
unfolding before_removal
before_removal-seats bcast one w c l = ground (arith, end_burst-seats bcast one w l)

after_removal-seats :
    (code : ℤ) (w : World) (c id l n : ℕ)
    → code ≡ pos n
    → let (rv, w') = after_removal (code, w) c id l in
      (rv ≡ pos 0) × ((w'.clients c).cur_lobby ≡ none) × SameSeats (w'.lobbies l) (w.lobbies l)
unfolding after_removal lobby_destroy_locked
after_removal-seats code w c id l n e = rw e (ground (arith, ==_refl c))

-- `lobby_remove_player` of a client that sits in lobby l, whatever the packets of a burst that it
-- ends come to: the answer is 0, the client is in no lobby, its slot is free, no other slot of l
-- has changed and the count of l is right.
pub lobby_remove_player-leaves :
    (bcast one : Packet → Bool) (now : ℕ) (w : World) (c l : ℕ)
    → IsCounted (w.lobbies l)
    → (w.clients c).cur_lobby ≡ some l
    → (w.clients c).client_id < (w.lobbies l).max_clients
    → get_or (w.lobbies l).clients (w.clients c).client_id none ≡ some c
    → let (code, w') = lobby_remove_player bcast one now w c in
      (code ≡ pos 0)
      × ((w'.clients c).cur_lobby ≡ none)
      × ((w'.lobbies l).clients ≡ set (w.lobbies l).clients (w.clients c).client_id none)
      × IsCounted (w'.lobbies l)
unfolding lobby_remove_player remove_player_from
lobby_remove_player-leaves bcast one now w c l v at lt held =
    let id = (w.clients c).client_id in
    let w1 = before_removal bcast one w c l in
    let same = before_removal-seats bcast one w c l in
    let held' : get_or (w1.lobbies l).clients id none ≡ some c = rw same.0 held in
    let x = remove-vacates now w1 c id l held' in
    let y = vacate-slots now w1.clients (w1.lobbies l) id in
    let v' = SameSeats-IsCounted _ _ same v in
    let counted = (lobby_remove_client_locked-IsCounted now w1 c id l v' (rw same.2 lt)).1 in
    let (n, code) = removed-pos now w1 c id l held' in
    let r =
      after_removal-seats (lobby_remove_client_locked now w1 c id l).0
        (lobby_remove_client_locked now w1 c id l).1 c id l n code in
    let from : Option ℕ → ℤ × World =
      λ o. elim o [ none ↦ (pos 0, w) | some k ↦ remove_player_from bcast one now w c k ] in
    let answer : lobby_remove_player bcast one now w c ≡ remove_player_from bcast one now w c l =
      ap from at in
    (
      ap (λ p. p.0) answer ∙ r.0,
      ap (λ p. (p.1.clients c).cur_lobby) answer ∙ r.1,
      ap (λ p. (p.1.lobbies l).clients) answer ∙ r.2.0 ∙ x.0 ∙ y.0 ∙ ap (λ s. set s id none) same.0,
      rw answer (SameSeats-IsCounted _ _ r.2 counted),
    )
