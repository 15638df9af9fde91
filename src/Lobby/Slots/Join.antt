-- ===== src/Lobby/Slots/Join.antt =====
-- Joining a lobby: the slot that the client gets, and leaving again.
use ship_server.Base.{
  ℕ, zero, suc, ◌+◌, ◌<◌, ◌≡◌, refl, sym, ap, ◌∙◌, inl, inr, List, [], ◌∷◌, Option, none, some,
  ◌==◌, if◌then◌else◌, pos, arith, length, get_or, set, ==_refl,
}
use ship_server.Lobby.{World}
use ship_server.Lobby.Slots.{
  update_challenge, place, before_join, lobby_add_client_locked, lobby_remove_client_locked,
}
use ship_server.Lobby.Slots.Count.{IsCounted, add-cases, before_join-slots, place-slots}
use ship_server.Lobby.Slots.Leave.{remove-vacates, vacate-slots}

-- The client's record and the leader after it was put into slot i.
place-seat :
    (now : ℕ) (w : World) (c l i : ℕ)
    → let w' = place now w c l i in
      ((w'.clients c).client_id ≡ i)
      × ((w'.clients c).cur_lobby ≡ some l)
      × ((w'.clients c).join_time ≡ now)
      × ((w'.lobbies l).leader_id
          ≡ (if (w.lobbies l).num_clients + 1 == 1 then i else (w.lobbies l).leader_id))
unfolding place update_challenge
place-seat now w c l i = rw (==_refl c, ==_refl l) (refl, refl, refl, ground arith)

before_join-leader :
    (w : World) (c l : ℕ) → ((before_join w c l).lobbies l).leader_id ≡ (w.lobbies l).leader_id
unfolding before_join
before_join-leader w c l = ground (arith, ==_refl l)

-- `lobby_add_client_locked` on a lobby with room puts the client into one slot i that was free,
-- leaves the other slots alone, tells the client its slot, lobby and time, and makes it the leader
-- if it is the only client, leaving the leader alone if not.
pub lobby_add_client_locked-seat :
    (now : ℕ) (w : World) (c l : ℕ)
    → IsCounted (w.lobbies l)
    → (w.lobbies l).num_clients < (w.lobbies l).max_clients
    → let lob = w.lobbies l in
      let (code, w') = lobby_add_client_locked now w c l in
      (i : ℕ) × (code ≡ pos 0)
      × (i < lob.max_clients)
      × (get_or lob.clients i none ≡ none)
      × ((w'.lobbies l).clients ≡ set lob.clients i (some c))
      × ((w'.lobbies l).num_clients ≡ lob.num_clients + 1)
      × ((w'.clients c).client_id ≡ i)
      × ((w'.clients c).cur_lobby ≡ some l)
      × ((w'.clients c).join_time ≡ now)
      × ((w'.lobbies l).leader_id ≡ (if lob.num_clients == 0 then i else lob.leader_id))
lobby_add_client_locked-seat now w c l v h = elim (add-cases now w c l v) [
  | inl (full, _) ↦ absurd (omega arith)
  | inr (i, _, lt, free, e) ↦
      let w1 = before_join w c l in
      let p = place-seat now w1 c l i in
      let b = before_join-slots w c l in
      (
        i,
        rw e,
        lt,
        free,
        rw e ((place-slots now w1 c l i).0 ∙ ap (λ s. set s i (some c)) b.0),
        rw e (omega (arith, (place-slots now w1 c l i).1, b.1)),
        rw e p.0,
        rw e p.1,
        rw e p.2,
        rw e (p.3 ∙ ground (arith, b.1, before_join-leader w c l)),
      )
]

set-set_free :
    (slots : List (Option ℕ)) (i : ℕ) (y : Option ℕ)
    → get_or slots i none ≡ none
    → set (set slots i y) i none ≡ slots
set-set_free [] i y e = refl
set-set_free (x ∷ r) zero y e = ap (λ z. z ∷ r) (sym e)
set-set_free (x ∷ r) (suc i) y e = ap (λ s. x ∷ s) (set-set_free r i y e)

get_or-set :
    (slots : List (Option ℕ)) (i : ℕ) (y : Option ℕ)
    → i < length slots
    → get_or (set slots i y) i none ≡ y
get_or-set [] i y h = absurd (omega arith)
get_or-set (x ∷ r) zero y h = refl
get_or-set (x ∷ r) (suc i) y h = get_or-set r i y (omega arith)

-- A client that leaves by the slot that it was given when it joined leaves every slot of the
-- lobby, and the count, as they were before it came.
lobby_add-remove :
    (now later : ℕ) (w : World) (c l : ℕ)
    → IsCounted (w.lobbies l)
    → (w.lobbies l).num_clients < (w.lobbies l).max_clients
    → let lob = w.lobbies l in
      let w' = (lobby_add_client_locked now w c l).1 in
      let lob' = (lobby_remove_client_locked later w' c (w'.clients c).client_id l).1.lobbies l in
      (lob'.clients ≡ lob.clients) × (lob'.num_clients ≡ lob.num_clients)
lobby_add-remove now later w c l v h =
    let w' = (lobby_add_client_locked now w c l).1 in
    let (i, _, lt, free, s, n, id, _, _, _) = lobby_add_client_locked-seat now w c l v h in
    let fits : i < length (w.lobbies l).clients = omega (arith, lt, v.size, v.twelve) in
    let held : get_or (w'.lobbies l).clients (w'.clients c).client_id none ≡ some c =
      rw (s, id) (get_or-set (w.lobbies l).clients i (some c) fits) in
    let r = remove-vacates later w' c (w'.clients c).client_id l held in
    let t = vacate-slots later w'.clients (w'.lobbies l) (w'.clients c).client_id in
    (
      r.0 ∙ t.0 ∙ rw (s, id) (set-set_free (w.lobbies l).clients i (some c) free),
      omega (arith, r.1, t.1, n),
    )
