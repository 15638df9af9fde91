-- ===== src/Lobby/Move/Seats.antt =====
-- What the parts of a move between lobbies leave alone.
use ship_server.Base.{
  ℕ, ◌≡◌, ◌≢◌, refl, ◌∙◌, inl, inr, Bool, true, false, some, arith, ==_refl, ==_ne, get_or, none,
  pos, Bool-cases, ◌==◌,
}
use ship_server.Lobby.{Lobby, World, holds, type_lobby}
use ship_server.Lobby.Slots.{
  place, before_join, detach, vacate, leave_team, lobby_add_client_locked,
  lobby_remove_client_locked,
}
use ship_server.Lobby.Slots.Count.{IsCounted, add-cases}
use ship_server.Lobby.Move.{arrive, settle, lobby_destroy_locked}

-- What two worlds share on the seats of the clients of a lobby.
abbrev pub SameSeats : Lobby → Lobby → Type 0
SameSeats l' l =
    (l'.clients ≡ l.clients) × (l'.num_clients ≡ l.num_clients) × (l'.max_clients ≡ l.max_clients)

pub SameSeats-IsCounted : (l' l : Lobby) → SameSeats l' l → IsCounted l → IsCounted l'
SameSeats-IsCounted l' l e v = record {
  size = rw e.0 v.size;
  two = rw e.2 v.two;
  twelve = rw e.2 v.twelve;
  counted = rw (e.0, e.1, e.2) v.counted;
}

-- Arrival and the end of a move change no seat.
arrive-seats :
    (w : World) (c l k : ℕ)
    → SameSeats ((arrive w c l).lobbies k) (w.lobbies k)
      × (((arrive w c l).clients c).cur_lobby ≡ (w.clients c).cur_lobby)
      × (((arrive w c l).clients c).client_id ≡ (w.clients c).client_id)
unfolding arrive
arrive-seats w c l k = ground (arith, ==_refl c)

pub settle-seats :
    (w : World) (c l old at k : ℕ) (d : Bool)
    → let w' = settle w c l old at d in
      SameSeats (w'.lobbies k) (w.lobbies k)
      × ((w'.clients c).cur_lobby ≡ (w.clients c).cur_lobby)
      × ((w'.clients c).client_id ≡ (w.clients c).client_id)
unfolding settle lobby_destroy_locked
settle-seats w c l old at k true = arrive-seats _ c at k
settle-seats w c l old at k false = arrive-seats _ c at k

place-elsewhere :
    (now : ℕ) (w : World) (c l i k : ℕ) → k ≢ l → (place now w c l i).lobbies k ≡ w.lobbies k
unfolding place
place-elsewhere now w c l i k ne = rw (==_ne k l ne) refl

before_join-elsewhere :
    (w : World) (c l k : ℕ) → k ≢ l → (before_join w c l).lobbies k ≡ w.lobbies k
unfolding before_join
before_join-elsewhere w c l k ne = ground (arith, ==_ne k l ne)

-- Joining a lobby leaves the other lobbies alone.
pub add-elsewhere :
    (now : ℕ) (w : World) (c l k : ℕ)
    → IsCounted (w.lobbies l)
    → k ≢ l
    → (lobby_add_client_locked now w c l).1.lobbies k ≡ w.lobbies k
add-elsewhere now w c l k v ne = elim (add-cases now w c l v) [
  | inl (full, e) ↦ rw e refl
  | inr (i, room, lt, free, e) ↦
      rw e (place-elsewhere now _ c l i k ne ∙ before_join-elsewhere w c l k ne)
]

-- Leaving a lobby leaves the other lobbies alone, and the client's record if it has moved on.
pub remove-elsewhere :
    (now : ℕ) (w : World) (c id l k : ℕ)
    → k ≢ l
    → (w.clients c).cur_lobby ≡ some k
    → let w' = (lobby_remove_client_locked now w c id l).1 in
      (w'.lobbies k ≡ w.lobbies k) × (w'.clients c ≡ w.clients c)
unfolding lobby_remove_client_locked leave_team detach
remove-elsewhere now w c id l k ne e = ground (arith, ==_ne k l ne, e)

-- A client that sits where it says does not make the removal fail.
pub removed-pos :
    (now : ℕ) (w : World) (c id l : ℕ)
    → get_or (w.lobbies l).clients id none ≡ some c
    → (n : ℕ) × ((lobby_remove_client_locked now w c id l).0 ≡ pos n)
unfolding lobby_remove_client_locked
removed-pos now w c id l e =
    elim (Bool-cases ((vacate now w.clients (w.lobbies l) id).type == type_lobby)) [
      | inl t ↦ (0, rw (e, holds, ==_refl c, t) refl)
      | inr t ↦ elim (Bool-cases ((vacate now w.clients (w.lobbies l) id).num_clients == 0)) [
        | inl z ↦ (1, rw (e, holds, ==_refl c, t, z) refl)
        | inr z ↦ (0, rw (e, holds, ==_refl c, t, z) refl)
      ]
    ]
