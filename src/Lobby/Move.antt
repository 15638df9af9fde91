-- ===== src/Lobby/Move.antt =====
-- src/lobby.c: `lobby_add_to_any`, `lobby_change_lobby`, `lobby_remove_player` and the part of
-- `lobby_destroy_locked` that others see.
pub mod Enter
pub mod Seats
pub mod Swap
pub mod Change
pub mod Gone
mod Examples
use ship_server.Base.{
  ℕ, zero, ◌+◌, ◌-◌, ◌%◌, Bool, true, false, ◌&&◌, ◌||◌, not, List, [], ◌∷◌, ◌++◌, map, Option,
  none, some, ltb, ◌==◌, if◌then◌else◌, ℤ, pos, neg, negsuc, is_zero, has_flag, set_flag,
  clear_flag, u32,
}
use ship_server.Lobby.{
  Packet, Lobby, Client, World, Msg, lobby_join, game_join, add_player, lobby_leave, lobby_chg,
  mkill, team_destroy, handled, sync_register, dcv1, dcv2, pc, type_lobby, type_game, put_client,
  put_lobby, send,
}
use ship_server.Lobby.Flag
use ship_server.Lobby.Queue.{lobby_handle_done_burst}
use ship_server.Lobby.Slots.{lobby_add_client_locked, lobby_remove_client_locked}

-- `c->lobby_id = l->lobby_id;`
abbrev set_lobby_id : World → ℕ → ℕ → World
set_lobby_id w c l = put_client w c (record (w.clients c) { lobby_id = (w.lobbies l).lobby_id })

-- Trying one lobby: whether the client was added, and the world.
pub try_lobby : ℕ → World → ℕ → ℕ → Bool × World
try_lobby now w c l =
    let lob = w.lobbies l in
    if lob.type == type_lobby && ltb lob.num_clients lob.max_clients
    then (let (code, w') = lobby_add_client_locked now w c l in
        if is_zero code then (true, set_lobby_id w' c l) else (false, w'))
    else (false, w)

-- The loop over the block's lobbies.
pub try_lobbies : ℕ → World → ℕ → List ℕ → Bool × World
try_lobbies now w c [] = (false, w)
try_lobbies now w c (l ∷ r) =
    let (added, w') =
      (if (w.clients c).version == dcv1 && ltb 10 (w.lobbies l).lobby_id
        then (false, w)
        else try_lobby now w c l) in
    let rest = try_lobbies now w' c r in if added then (true, w') else rest

-- 0 if the client was added somewhere, else 1.
pub lobby_add_to_any : ℕ → World → ℕ → Option ℕ → ℤ × World
lobby_add_to_any now w c none =
    let (added, w') = try_lobbies now w c w.block_lobbies in (if added then pos 0 else pos 1, w')
lobby_add_to_any now w c (some req) =
    let w0 = put_client w c (record (w.clients c) { lobby_req = none }) in
    let (added, w1) = try_lobby now w0 c req in
    let (added', w2) = try_lobbies now w1 c w1.block_lobbies in
    if added then (pos 0, w1) else (if added' then pos 0 else pos 1, w2)

-- The first rule that keeps a client out of a lobby, as the return value; 0 if there is none.
-- `override` is CLIENT_FLAG_OVERRIDE_GAME and `legit` what lobby_check_client_legit answers.
pub policy : Bool → Bool → Client → Lobby → ℤ
policy override legit c req =
    if req.type == type_game && req.version == dcv1 && ltb 8 c.ch_class
    then neg 15
    else if has_flag req.flags Flag.singleplayer && not (req.num_clients == 0)
    then neg 14
    else if has_flag req.flags Flag.pconly && not (c.version == pc) && not override
    then neg 13
    else if has_flag req.flags Flag.v1only && not (c.version == dcv1) && not override
    then neg 12
    else if has_flag req.flags Flag.dconly
        && not (c.version == dcv1)
        && not (c.version == dcv2)
        && not override
    then neg 11
    else if has_flag req.flags Flag.temp_unavail
    then neg 10
    else if has_flag req.flags Flag.bursting
    then neg 3
    else if has_flag req.flags Flag.questing && not (has_flag req.q_flags Flag.q_join)
    then neg 7
    else if has_flag req.flags Flag.questsel
    then neg 8
    else if ltb ((c.level + 1) % u32) req.min_level && not override
    then neg 4
    else if ltb req.max_level ((c.level + 1) % u32) && not override
    then neg 5
    else if c.version == dcv1 && not (req.v2 == 0)
    then neg 6
    else if req.type == type_game && has_flag req.flags Flag.legit_mode && not legit && not override
    then neg 9
    else pos 0

-- The block's list without a lobby.
without : ℕ → List ℕ → List ℕ
without l [] = []
without l (k ∷ r) = if k == l then r else k ∷ without l r

-- `memset` to zero of an array of words.
abbrev all_zero : List ℕ → List ℕ
all_zero xs = map (λ x. 0) xs

-- What the block and others see of `lobby_destroy_locked(l, 1)`.
pub lobby_destroy_locked : World → ℕ → World
lobby_destroy_locked w l =
    let w' = send w (team_destroy l) in
    record w' {
      block_lobbies = without l w'.block_lobbies;
      num_games = if (w.lobbies l).type == type_lobby then w.num_games else w.num_games - 1;
    }

-- What follows a client's arrival in its new lobby.
pub arrive : World → ℕ → ℕ → World
arrive w c l =
    let lob = w.lobbies l in
    let cl = w.clients c in
    if lob.type == type_lobby
    then put_client (send w (lobby_join c l)) c
        (record cl { lobby_id = lob.lobby_id; flags = clear_flag cl.flags Flag.c_shopping })
    else (let w1 = send w (game_join c l) in
        let w2 = put_lobby w1 l (record lob { flags = set_flag lob.flags Flag.bursting }) in
        put_client w2 c (record cl {
          enemy_kills = all_zero cl.enemy_kills;
          q_stack = all_zero cl.q_stack;
          q_stack_top = 0;
          flags = clear_flag (set_flag cl.flags Flag.c_bursting) Flag.c_shopping;
          p2_drops = all_zero cl.p2_drops;
          p2_drops_max = 0;
        }))

-- The end of a change: messages, the arrival, and the old lobby if it is to go. `at` is the lobby
-- that the client is then in.
pub settle : World → ℕ → ℕ → ℕ → ℕ → Bool → World
settle w c l old_cid at delete =
    let w1 = arrive (send w (lobby_leave l c old_cid)) c at in
    let w2 = send w1 (add_player at c) in
    let w3 = if delete then lobby_destroy_locked w2 l else w2 in
    send w3 (lobby_chg (w.clients c).guildcard (w.lobbies at).lobby_id)

-- A client without a lobby: `joins` and `adds` are whether send_lobby_join and
-- send_lobby_add_player succeed.
pub first_lobby : ℕ → World → ℕ → Option ℕ → Bool → Bool → ℤ × World
first_lobby now w c req joins adds =
    let (code, w1) = lobby_add_to_any now w c req in
    if not (is_zero code) then (neg 11, w1) else elim (w1.clients c).cur_lobby [
      | none ↦ (neg 11, w1)
      | some l ↦
          (let w2 = send w1 (lobby_join c l) in
            let w3 = send w2 (add_player l c) in
            let w4 = set_lobby_id w3 c l in
            if not joins
            then (neg 11, w1)
            else if not adds
            then (neg 11, w2)
            else (pos 0, send w4 (lobby_chg (w.clients c).guildcard (w.lobbies l).lobby_id)))
    ]

-- A client that is in lobby l: the rules, then the move.
pub move_lobby : ℕ → World → ℕ → ℕ → ℕ → Bool → Bool → ℤ × World
move_lobby now w c l req override legit =
    let old_cid = (w.clients c).client_id in
    let refused = policy override legit (w.clients c) (w.lobbies req) in
    let (added, w1) = lobby_add_client_locked now w c req in
    let (removed, w2) = lobby_remove_client_locked now w1 c old_cid l in
    if not (is_zero refused)
    then (refused, w)
    else if l == req
    then (pos 0, settle w c l old_cid l false)
    else if not (is_zero added)
    then (neg 1, w1)
    else elim removed [
      | negsuc _ ↦ (neg 2, w2)
      | pos n ↦ (pos 0, settle w2 c l old_cid req (not (n == 0)))
    ]

-- `none` is a NULL request from a client that has a lobby, which the code would follow.
pub lobby_change_lobby : ℕ → World → ℕ → Option ℕ → Bool → Bool → Bool → Option (ℤ × World)
lobby_change_lobby now w c req legit joins adds =
    let cl = w.clients c in
    let override = has_flag cl.flags Flag.c_override_game in
    let w0 = put_client w c (record cl { flags = clear_flag cl.flags Flag.c_override_game }) in
    elim cl.cur_lobby [
      | none ↦ some (first_lobby now w0 c req joins adds)
      | some l ↦ elim req [ none ↦ none | some r ↦ some (move_lobby now w0 c l r override legit) ]
    ]

-- The end of a client's burst, when it goes: its lobby's flag, and the packets that waited.
end_burst : (Packet → Bool) → (Packet → Bool) → World → ℕ → World
end_burst bcast one w l =
    let lob = record (w.lobbies l) { flags = clear_flag (w.lobbies l).flags Flag.bursting } in
    let b = lobby_handle_done_burst bcast one (λ r v. false) lob false in
    let w' = put_lobby w l b.lobby in record w' { out = w'.out ++ map handled b.handled }

-- What comes before the removal: the end of the burst, and the kills of a tracked client.
before_removal : (Packet → Bool) → (Packet → Bool) → World → ℕ → ℕ → World
unfolding end_burst
before_removal bcast one w c l =
    let cl = w.clients c in
    let w1 = if has_flag cl.flags Flag.c_bursting then end_burst bcast one w l else w in
    if (w1.lobbies l).type == type_game && has_flag cl.flags Flag.c_track_kills
    then send w1 (mkill c l)
    else w1

-- What follows the removal, from its answer.
after_removal : ℤ × World → ℕ → ℕ → ℕ → ℤ × World
after_removal (negsuc _, w) c client_id l = (neg 1, w)
after_removal (pos n, w) c client_id l =
    let w1 = send w (lobby_leave l c client_id) in
    let w2 = if n == 0 then w1 else lobby_destroy_locked w1 l in
    (pos 0, put_client w2 c (record (w2.clients c) { cur_lobby = none }))

remove_player_from : (Packet → Bool) → (Packet → Bool) → ℕ → World → ℕ → ℕ → ℤ × World
remove_player_from bcast one now w c l =
    let client_id = (w.clients c).client_id in
    after_removal (lobby_remove_client_locked now (before_removal bcast one w c l) c client_id l) c
      client_id l

pub lobby_remove_player : (Packet → Bool) → (Packet → Bool) → ℕ → World → ℕ → ℤ × World
lobby_remove_player bcast one now w c = elim (w.clients c).cur_lobby [
  | none ↦ (pos 0, w)
  | some l ↦ remove_player_from bcast one now w c l
]
