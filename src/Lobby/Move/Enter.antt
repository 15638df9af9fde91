-- ===== src/Lobby/Move/Enter.antt =====
-- Finding a default lobby for a client.
use ship_server.Base.{
  ℕ, ◌<◌, ◌≡◌, refl, ◌⊎◌, Bool, true, false, ◌&&◌, not, List, [], ◌∷◌, Option, none, some, ltb,
  ◌==◌, if◌then◌else◌, pos, arith, All, inl, inr, Bool-cases, ==_refl,
}
use ship_server.Lobby.{World, dcv1, type_lobby}
use ship_server.Lobby.Slots.Count.{IsCounted}
use ship_server.Lobby.Slots.Join.{lobby_add_client_locked-seat}
use ship_server.Lobby.Move.{try_lobby, try_lobbies, lobby_add_to_any}

-- A lobby that the version of the client does not see.
abbrev hidden : World → ℕ → ℕ → Bool
hidden w c l = (w.clients c).version == dcv1 && ltb 10 (w.lobbies l).lobby_id

-- A default lobby with room.
abbrev has_room : World → ℕ → Bool
has_room w l =
    (w.lobbies l).type == type_lobby && ltb (w.lobbies l).num_clients (w.lobbies l).max_clients

abbrev takes_client : World → ℕ → ℕ → Bool
takes_client w c l = not (hidden w c l) && has_room w l

-- The first lobby of the list that takes the client.
first_taker : World → ℕ → List ℕ → Option ℕ
first_taker w c [] = none
first_taker w c (l ∷ r) = if takes_client w c l then some l else first_taker w c r

try_lobby-refuses :
    (now : ℕ) (w : World) (c l : ℕ) → has_room w l ≡ false → try_lobby now w c l ≡ (false, w)
unfolding try_lobby
try_lobby-refuses now w c l h = rw h refl

try_lobby-takes :
    (now : ℕ) (w : World) (c l : ℕ)
    → IsCounted (w.lobbies l)
    → has_room w l ≡ true
    → let (added, w') = try_lobby now w c l in (added ≡ true) × ((w'.clients c).cur_lobby ≡ some l)
unfolding try_lobby
try_lobby-takes now w c l v h =
    let room : (w.lobbies l).num_clients < (w.lobbies l).max_clients = ground arith in
    let (i, code, _, _, _, _, _, cur, _, _) = lobby_add_client_locked-seat now w c l v room in
    rw (h, code) (rw (==_refl c) (refl, cur))

-- Whether the loop added the client, and if so where it then is.
abbrev Added : World → ℕ → Option ℕ → Bool × World → Type 0
Added w c none (added, w') = (added ≡ false) × (w' ≡ w)
Added w c (some l) (added, w') = (added ≡ true) × ((w'.clients c).cur_lobby ≡ some l)

try_lobbies-Added :
    (now : ℕ) (w : World) (c : ℕ) (ls : List ℕ)
    → All (λ l. IsCounted (w.lobbies l)) ls
    → Added w c (first_taker w c ls) (try_lobbies now w c ls)
unfolding try_lobbies first_taker
try_lobbies-Added now w c [] v = (refl, refl)
try_lobbies-Added now w c (l ∷ r) v = elim (Bool-cases (hidden w c l)) [
  | inl h ↦ rw h (try_lobbies-Added now w c r v.1)
  | inr h ↦ elim (Bool-cases (has_room w l)) [
    | inl t ↦ rw (h, t) (let (a, cur) = try_lobby-takes now w c l v.0 t in rw a (refl, cur))
    | inr t ↦ rw (h, t) (rw (try_lobby-refuses now w c l t) (try_lobbies-Added now w c r v.1))
  ]
]

-- `lobby_add_to_any` without a request: if some default lobby of the block has room and is one that
-- the client can see, the answer is 0 and the client is in the first such lobby; if not, the answer
-- is 1 and nothing has changed.
lobby_add_to_any_lem :
    (now : ℕ) (w : World) (c : ℕ)
    → All (λ l. IsCounted (w.lobbies l)) w.block_lobbies
    → let (code, w') = lobby_add_to_any now w c none in
      ((l : ℕ) × (first_taker w c w.block_lobbies ≡ some l)
        × (code ≡ pos 0)
        × ((w'.clients c).cur_lobby ≡ some l))
      ⊎ ((first_taker w c w.block_lobbies ≡ none) × (code ≡ pos 1) × (w' ≡ w))
unfolding lobby_add_to_any
lobby_add_to_any_lem now w c v =
    verdict (first_taker w c w.block_lobbies) (try_lobbies now w c w.block_lobbies) refl
      (try_lobbies-Added now w c w.block_lobbies v)
  where
    verdict :
        (o : Option ℕ) (t : Bool × World)
        → first_taker w c w.block_lobbies ≡ o
        → Added w c o t
        → ((l : ℕ) × (first_taker w c w.block_lobbies ≡ some l)
            × ((if t.0 then pos 0 else pos 1) ≡ pos 0)
            × ((t.1.clients c).cur_lobby ≡ some l))
          ⊎ ((first_taker w c w.block_lobbies ≡ none)
              × ((if t.0 then pos 0 else pos 1) ≡ pos 1)
              × (t.1 ≡ w))
    verdict none (a, w') e h = inr (e, rw h.0 refl, h.1)
    verdict (some l) (a, w') e h = inl (l, e, rw h.0 refl, h.1)
