-- ===== src/Lobby/Move/Swap.antt =====
-- Joining a lobby and leaving another one, as a move does.
use ship_server.Base.{ℕ, ◌<◌, ◌≡◌, ◌≢◌, sym, ap, ◌∙◌, Bool, none, some, pos, get_or, set}
use ship_server.Lobby.{World}
use ship_server.Lobby.Slots.{lobby_add_client_locked, lobby_remove_client_locked}
use ship_server.Lobby.Slots.Count.{IsCounted, lobby_add_client_locked-IsCounted}
use ship_server.Lobby.Slots.Join.{lobby_add_client_locked-seat}
use ship_server.Lobby.Slots.Leave.{
  remove-vacates, vacate-slots, lobby_remove_client_locked-IsCounted,
}
use ship_server.Lobby.Move.{settle}
use ship_server.Lobby.Move.Seats.{
  SameSeats-IsCounted, settle-seats, add-elsewhere, remove-elsewhere, removed-pos,
}

-- What a move of client c from lobby l to lobby r comes to: one slot of r that was free holds the
-- client, which knows it, its slot of l is free, no other slot of the two has changed, and both
-- counts are right.
pub record IsMoved (w : World) (c l r : ℕ) (w' : World) : Type 0 where
  pub slot : ℕ
  pub in_range : slot < (w.lobbies r).max_clients
  pub was_free : get_or (w.lobbies r).clients slot none ≡ none
  pub slots : (w'.lobbies r).clients ≡ set (w.lobbies r).clients slot (some c)
  pub old_slots : (w'.lobbies l).clients ≡ set (w.lobbies l).clients (w.clients c).client_id none
  pub knows_slot : (w'.clients c).client_id ≡ slot
  pub knows_lobby : (w'.clients c).cur_lobby ≡ some r
  pub counted : IsCounted (w'.lobbies r)
  pub old_counted : IsCounted (w'.lobbies l)

pub IsMoved-settle :
    (w : World) (c l r : ℕ) (w' : World) (old at : ℕ) (d : Bool)
    → IsMoved w c l r w'
    → IsMoved w c l r (settle w' c l old at d)
IsMoved-settle w c l r w' old at d m =
    let s = settle-seats w' c l old at r d in
    let t = settle-seats w' c l old at l d in
    record {
      slot = m.slot;
      in_range = m.in_range;
      was_free = m.was_free;
      slots = s.0.0 ∙ m.slots;
      old_slots = t.0.0 ∙ m.old_slots;
      knows_slot = s.2 ∙ m.knows_slot;
      knows_lobby = s.1 ∙ m.knows_lobby;
      counted = SameSeats-IsCounted _ _ s.0 m.counted;
      old_counted = SameSeats-IsCounted _ _ t.0 m.old_counted;
    }

-- Joining one lobby and then leaving the other, as a move does.
pub swap-IsMoved :
    (now : ℕ) (w : World) (c l r : ℕ)
    → IsCounted (w.lobbies l)
    → IsCounted (w.lobbies r)
    → l ≢ r
    → (w.clients c).client_id < (w.lobbies l).max_clients
    → get_or (w.lobbies l).clients (w.clients c).client_id none ≡ some c
    → (w.lobbies r).num_clients < (w.lobbies r).max_clients
    → let (added, w1) = lobby_add_client_locked now w c r in
      let (removed, w2) = lobby_remove_client_locked now w1 c (w.clients c).client_id l in
      (added ≡ pos 0) × ((n : ℕ) × (removed ≡ pos n)) × IsMoved w c l r w2
swap-IsMoved now w c l r vl vr ne lt held room =
    let id = (w.clients c).client_id in
    let w1 = (lobby_add_client_locked now w c r).1 in
    let (i, code, range, free, seats, _, knows, at, _, _) =
      lobby_add_client_locked-seat now w c r vr room in
    let same = add-elsewhere now w c r l vr ne in
    let held' : get_or (w1.lobbies l).clients id none ≡ some c = rw same held in
    let x = remove-vacates now w1 c id l held' in
    let y = vacate-slots now w1.clients (w1.lobbies l) id in
    let away = remove-elsewhere now w1 c id l r (λ e. ne (sym e)) at in
    (
      code,
      removed-pos now w1 c id l held',
      record {
        slot = i;
        in_range = range;
        was_free = free;
        slots = ap (λ q. q.clients) away.0 ∙ seats;
        old_slots = x.0 ∙ y.0 ∙ ap (λ q. set q.clients id none) same;
        knows_slot = ap (λ q. q.client_id) away.1 ∙ knows;
        knows_lobby = ap (λ q. q.cur_lobby) away.1 ∙ at;
        counted = rw away.0 ((lobby_add_client_locked-IsCounted now w c r vr).1);
        old_counted =
            (lobby_remove_client_locked-IsCounted now w1 c id l (rw same vl) (rw same lt)).1;
      },
    )
