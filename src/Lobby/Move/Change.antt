-- ===== src/Lobby/Move/Change.antt =====
-- src/lobby.c: a client that is in a lobby and asks for another one.
use ship_server.Base.{
  ℕ, ◌≤◌, ◌<◌, ◌≡◌, ◌≢◌, refl, ap, ◌∙◌, ◌⊎◌, inl, inr, Bool, true, false, not, Option, none, some,
  ◌==◌, if◌then◌else◌, ℤ, pos, neg, negsuc, is_zero, has_flag, clear_flag, get_or, set, arith,
  Bool-cases, ==_refl, ==_ne,
}
use ship_server.Lobby.{Lobby, World, put_client}
use ship_server.Lobby.Flag
use ship_server.Lobby.Slots.{lobby_add_client_locked, lobby_remove_client_locked}
use ship_server.Lobby.Slots.Count.{IsCounted}
use ship_server.Lobby.Move.{policy, settle, first_lobby, move_lobby, lobby_change_lobby}
use ship_server.Lobby.Move.Swap.{IsMoved, IsMoved-settle, swap-IsMoved}

-- The world after the override is used up.
abbrev drop_override : World → ℕ → World
drop_override w c =
    put_client w c
      (record (w.clients c) { flags = clear_flag (w.clients c).flags Flag.c_override_game })

abbrev pub refusal : Bool → World → ℕ → ℕ → ℤ
refusal legit w c r =
    policy (has_flag (w.clients c).flags Flag.c_override_game) legit (w.clients c) (w.lobbies r)

policy-drop :
    (o legit : Bool) (w : World) (c : ℕ) (q : Lobby)
    → policy o legit ((drop_override w c).clients c) q ≡ policy o legit (w.clients c) q
unfolding policy
policy-drop o legit w c q = rw (==_refl c) refl

-- A client with a lobby, once its override is used up, goes by `move_lobby`.
change-move :
    (now : ℕ) (w : World) (c l r : ℕ) (legit joins adds : Bool)
    → (w.clients c).cur_lobby ≡ some l
    → lobby_change_lobby now w c (some r) legit joins adds
      ≡ some (
          move_lobby now
            (drop_override w c)
            c
            l
            r
            (has_flag (w.clients c).flags Flag.c_override_game)
            legit)
unfolding lobby_change_lobby
change-move now w c l r legit joins adds at =
    let w0 = drop_override w c in
    let override = has_flag (w.clients c).flags Flag.c_override_game in
    let by_lobby : Option ℕ → Option (ℤ × World) = λ o. elim o [
      | none ↦ some (first_lobby now w0 c (some r) joins adds)
      | some k ↦ some (move_lobby now w0 c k r override legit)
    ] in
    ap by_lobby at

move_lobby-moves :
    (now : ℕ) (w : World) (c l r n : ℕ) (override legit : Bool)
    → l ≢ r
    → policy override legit (w.clients c) (w.lobbies r) ≡ pos 0
    → let (added, w1) = lobby_add_client_locked now w c r in
      let (removed, w2) = lobby_remove_client_locked now w1 c (w.clients c).client_id l in
      added ≡ pos 0
      → removed ≡ pos n
      → move_lobby now w c l r override legit
        ≡ (pos 0, settle w2 c l (w.clients c).client_id r (not (n == 0)))
unfolding move_lobby
move_lobby-moves now w c l r n override legit ne rules code left =
    rw (rules, ==_ne l r ne, code, left) refl

move_lobby-refused :
    (now : ℕ) (w : World) (c l r : ℕ) (override legit : Bool) (k : ℤ)
    → is_zero (policy override legit (w.clients c) (w.lobbies r)) ≡ false
    → policy override legit (w.clients c) (w.lobbies r) ≡ k
    → move_lobby now w c l r override legit ≡ (k, w)
unfolding move_lobby
move_lobby-refused now w c l r override legit k z e = rw z (rw e refl)

move_lobby-full :
    (now : ℕ) (w : World) (c l r : ℕ) (override legit : Bool)
    → l ≢ r
    → is_zero (policy override legit (w.clients c) (w.lobbies r)) ≡ true
    → lobby_add_client_locked now w c r ≡ (neg 1, w)
    → move_lobby now w c l r override legit ≡ (neg 1, w)
unfolding move_lobby
move_lobby-full now w c l r override legit ne z e = rw (z, ==_ne l r ne) (rw e refl)

-- `lobby_change_lobby` for a client that sits in its lobby l and asks for another lobby r that has
-- room and whose rules let it in: the answer is 0 and the client has moved, whatever the lobbies'
-- types and whether or not l is then destroyed.
pub lobby_change_lobby-IsMoved :
    (now : ℕ) (w : World) (c l r : ℕ) (legit joins adds : Bool)
    → IsCounted (w.lobbies l)
    → IsCounted (w.lobbies r)
    → l ≢ r
    → (w.clients c).cur_lobby ≡ some l
    → (w.clients c).client_id < (w.lobbies l).max_clients
    → get_or (w.lobbies l).clients (w.clients c).client_id none ≡ some c
    → (w.lobbies r).num_clients < (w.lobbies r).max_clients
    → refusal legit w c r ≡ pos 0
    → (w' : World) × (lobby_change_lobby now w c (some r) legit joins adds ≡ some (pos 0, w'))
      × IsMoved w c l r w'
lobby_change_lobby-IsMoved now w c l r legit joins adds vl vr ne at lt held room rules =
    let w0 = drop_override w c in
    let id = (w.clients c).client_id in
    let seat : (w0.clients c).client_id ≡ id = rw (==_refl c) refl in
    let (code, (n, left), m) =
      swap-IsMoved now w0 c l r vl vr ne (rw seat lt) (rw seat held) room in
    let w2 =
      (lobby_remove_client_locked now (lobby_add_client_locked now w0 c r).1 c
        (w0.clients c).client_id l).1 in
    let m' : IsMoved w c l r w2 = record {
      slot = m.slot;
      in_range = m.in_range;
      was_free = m.was_free;
      slots = m.slots;
      old_slots = m.old_slots ∙ ap (λ k. set (w.lobbies l).clients k none) seat;
      knows_slot = m.knows_slot;
      knows_lobby = m.knows_lobby;
      counted = m.counted;
      old_counted = m.old_counted;
    } in
    (
      settle w2 c l (w0.clients c).client_id r (not (n == 0)),
      change-move now w c l r legit joins adds at
          ∙ ap some (
              move_lobby-moves now w0 c l r n _ legit ne
                (policy-drop _ legit w c (w.lobbies r) ∙ rules) code left),
      IsMoved-settle w c l r w2 (w0.clients c).client_id r (not (n == 0)) m',
    )

is_zero→pos : (k : ℤ) → is_zero k ≡ true → k ≡ pos 0
is_zero→pos (pos n) e = ground arith
is_zero→pos (negsuc n) e = cc

full-refuses :
    (now : ℕ) (w : World) (c r : ℕ)
    → (w.lobbies r).max_clients ≤ (w.lobbies r).num_clients
    → lobby_add_client_locked now w c r ≡ (neg 1, w)
unfolding lobby_add_client_locked
full-refuses now w c r h = ground arith

-- `lobby_change_lobby` for a client that is in a lobby l and asks for another lobby r that is full
-- or whose rules keep it out: the answer is the first such rule's, or -1 if none does, and nothing
-- has changed but that the client's override is used up.
lobby_change_lobby-refused :
    (now : ℕ) (w : World) (c l r : ℕ) (legit joins adds : Bool)
    → IsCounted (w.lobbies r)
    → l ≢ r
    → (w.clients c).cur_lobby ≡ some l
    → (refusal legit w c r ≢ pos 0) ⊎ ((w.lobbies r).max_clients ≤ (w.lobbies r).num_clients)
    → lobby_change_lobby now w c (some r) legit joins adds
      ≡ some
          (if is_zero (refusal legit w c r) then neg 1 else refusal legit w c r, drop_override w c)
lobby_change_lobby-refused now w c l r legit joins adds v ne at why =
    let same =
      policy-drop (has_flag (w.clients c).flags Flag.c_override_game) legit w c (w.lobbies r) in
    let w0 = drop_override w c in
    change-move now w c l r legit joins adds at
    ∙ ap some (elim (Bool-cases (is_zero (refusal legit w c r))) [
      | inr z ↦ rw z (move_lobby-refused now w0 c l r _ legit _ (ap is_zero same ∙ z) same)
      | inl z ↦ rw z (
          move_lobby-full now w0 c l r _ legit ne (ap is_zero same ∙ z) (
            full-refuses now w0 c r
              (elim why [ inl bad ↦ absurd (bad (is_zero→pos _ z)) | inr full ↦ full ])))
    ])
