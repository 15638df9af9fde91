-- ===== src/Lobby/Slots.antt =====
-- src/lobby.c: `lobby_find_max_challenge`, `lobby_add_client_locked`, the two elections and
-- `lobby_remove_client_locked`. `now` is time(NULL) at the call.
pub mod Candidates
pub mod Election
pub mod Count
pub mod Join
pub mod Leaderless
pub mod Leave
mod Examples
use Prim.Native.Nat.{bit_or}
use ship_server.Base.{
  ℕ, zero, suc, ◌+◌, ◌-◌, ◌*◌, ◌%◌, Bool, true, false, ◌&&◌, ◌||◌, not, List, [], ◌∷◌, ◌++◌, map,
  Option, none, some, ltb, leb, ◌==◌, if◌then◌else◌, ℤ, pos, neg, get_or, set, take, find_index,
  has_flag, clear_flag, min,
}
use ship_server.Lobby.Flag
use ship_server.Lobby.{
  Lobby, Client, World, Msg, sync_register, team_join, team_leave, dcv2, pc, gc, bb, xbox,
  type_lobby, type_game, put_client, put_lobby, send, is_empty, holds,
}

-- The first challenge level of the two episodes that a client has not completed; `none` for a
-- version that the switch does not know.
completed : Client → Option (ℕ × ℕ)
completed c =
    if c.version == dcv2 || c.version == pc
    then some (find_index (λ t. t == 0) 9 c.times, 0)
    else if c.version == gc || c.version == bb || c.version == xbox
    then some (find_index (λ t. t == 0) 9 c.times, find_index (λ t. t == 0) 5 c.times_ep2)
    else none

-- The loop over the slots; `none` is its early return.
min_levels : (ℕ → Client) → List (Option ℕ) → ℕ × ℕ → Option (ℕ × ℕ)
min_levels of [] m = some m
min_levels of (none ∷ r) m = min_levels of r m
min_levels of (some c ∷ r) (a, b) = elim (completed (of c)) [
  | none ↦ none
  | some (i, k) ↦ min_levels of r (if ltb i a then i else a, if ltb k b then k else b)
]

lobby_find_max_challenge : (ℕ → Client) → Lobby → ℕ
unfolding min_levels completed
lobby_find_max_challenge of l =
    if l.challenge == 0 then 0 else elim (min_levels of (take l.max_clients l.clients) (255, 255)) [
      | none ↦ 255
      | some (a, b) ↦
          if leb gc l.version then bit_or (a + 1) ((b + 1) * 16) % 256 else (a + 1) % 256
    ]

-- `if(l->challenge) l->max_chal = lobby_find_max_challenge(l);`
pub update_challenge : (ℕ → Client) → Lobby → Lobby
unfolding lobby_find_max_challenge
update_challenge of l =
    if l.challenge == 0 then l else record l { max_chal = lobby_find_max_challenge of l }

-- The registers that count the players of a quest: slot k is told through register qcount_reg[k].
-- The code does not look whether a client is in the slot; a message to an empty one is to `none`.
sync_counts : List (Option ℕ) → List ℕ → ℕ → List Msg
sync_counts [] regs n = []
sync_counts (c ∷ cs) [] n = []
sync_counts (c ∷ cs) (r ∷ regs) n =
    let rest = sync_counts cs regs n in if r == 0 then rest else sync_register c r n ∷ rest

-- `if((l->flags & LOBBY_FLAG_QUESTING)) { ... }`
pub sync_quest : Lobby → List Msg
unfolding sync_counts
sync_quest l =
    if has_flag l.flags Flag.questing
    then sync_counts (take 4 l.clients) (take 4 l.qcount_reg) l.num_clients
    else []

-- Putting client c into slot i of lobby l, as both branches do.
unfoldable pub place : ℕ → World → ℕ → ℕ → ℕ → World
unfolding update_challenge sync_quest
place now w c l i =
    let lob = w.lobbies l in
    let cl = w.clients c in
    let w1 =
      put_client w c
        (record cl { cur_lobby = some l; client_id = i; arrow = 0; join_time = now }) in
    let lob1 = record lob {
      clients = set lob.clients i (some c);
      num_clients = lob.num_clients + 1;
    } in
    let lob2 = update_challenge w1.clients lob1 in
    let lob3 = record lob2 { leader_id = if lob2.num_clients == 1 then i else lob2.leader_id } in
    let w2 = put_lobby w1 l lob3 in record w2 { out = w2.out ++ sync_quest lob3 }

-- The flag and the script that come before a slot is looked for.
unfoldable pub before_join : World → ℕ → ℕ → World
before_join w c l =
    let lob = w.lobbies l in
    let w1 = put_lobby w l (record lob {
      flags = if lob.num_clients == 0 then lob.flags else clear_flag lob.flags Flag.only_one;
    }) in
    if lob.type == type_lobby then w1 else send w1 (team_join c l)

-- The first free slot, or the number of slots.
abbrev pub free_slot : Lobby → ℕ
free_slot lob = find_index is_empty lob.max_clients lob.clients

-- Slot 1 comes first in a team of an older version.
abbrev pub prefers_one : Lobby → Bool
prefers_one lob =
    is_empty (get_or lob.clients 1 none) && ltb lob.version gc && lob.type == type_game

unfoldable pub lobby_add_client_locked : ℕ → World → ℕ → ℕ → ℤ × World
lobby_add_client_locked now w c l =
    let lob = w.lobbies l in
    if leb lob.max_clients lob.num_clients
    then (neg 1, w)
    else (let w1 = before_join w c l in
        if prefers_one lob
        then (pos 0, place now w1 c l 1)
        else if ltb (free_slot lob) lob.max_clients
        then (pos 0, place now w1 c l (free_slot lob))
        else (neg 1, w1))

-- The loop of an election from slot i on: the best candidate so far and when it joined.
-- `eligible` is the test on the client beside its join time.
pub elect : (ℕ → Client) → (Client → Bool) → ℕ → List (Option ℕ) → ℕ → Option ℕ × ℕ → Option ℕ × ℕ
elect of eligible leader [] i best = best
elect of eligible leader (none ∷ r) i best = elect of eligible leader r (i + 1) best
elect of eligible leader (some c ∷ r) i best = elect of eligible leader r (i + 1) (
    if i == leader
    then best
    else if ltb (of c).join_time best.1 && eligible (of c)
    then (some i, (of c).join_time)
    else best)

pub lobby_elect_leader_locked : ℕ → (ℕ → Client) → Lobby → Option ℕ
unfolding elect
lobby_elect_leader_locked now of l =
    (elect of (λ c. true) l.leader_id (take l.max_clients l.clients) 0 (none, now)).0

-- The election of a cross-platform team, which also changes the team if nobody with an older
-- version is left.
pub lobby_elect_leader_cross_locked : ℕ → (ℕ → Client) → Lobby → Option ℕ × Lobby
unfolding elect
lobby_elect_leader_cross_locked now of l =
    let slots = take l.max_clients l.clients in
    let first = elect of (λ c. ltb c.version gc) l.leader_id slots 0 (none, now) in
    elim first.0 [
      | some k ↦ (some k, l)
      | none ↦ (
        (elect of (λ c. true) l.leader_id slots 0 (none, first.1)).0,
        record l { flags = clear_flag l.flags Flag.gc_allowed; version = gc; episode = 1 },
      )
    ]

abbrev pub or_zero : Option ℕ → ℕ
or_zero none = 0
or_zero (some k) = k

-- The part of the removal that finds a new leader when the leader goes.
pub replace_leader : ℕ → (ℕ → Client) → Lobby → ℕ → Lobby
unfolding lobby_elect_leader_locked lobby_elect_leader_cross_locked
replace_leader now of l client_id =
    if client_id == l.leader_id
    then (if ltb l.version gc && has_flag l.flags Flag.gc_allowed
        then (let (k, l') = lobby_elect_leader_cross_locked now of l in
            record l' { leader_id = or_zero k })
        else record l { leader_id = or_zero (lobby_elect_leader_locked now of l) })
    else l

-- The quest registers of a slot that a team has lost.
pub clear_regs : Lobby → ℕ → Lobby
clear_regs l client_id = record l {
  qpos_regs = map (λ row. set row client_id 0) l.qpos_regs;
  qcount_reg = set l.qcount_reg client_id 0;
}

-- The lobby without the client of a slot: a new leader if need be, then the slot, the count and
-- the challenge level.
pub vacate : ℕ → (ℕ → Client) → Lobby → ℕ → Lobby
vacate now of l client_id =
    let l1 = replace_leader now of l client_id in
    update_challenge of
      (record l1 { clients = set l1.clients client_id none; num_clients = l1.num_clients - 1 })

-- The client's own record, if this is its lobby.
unfoldable pub detach : World → ℕ → ℕ → World
detach w c l =
    let cl = w.clients c in
    if holds cl.cur_lobby l
    then put_client w c (record cl { cur_lobby = none; client_id = 0 })
    else w

-- The script and the quest registers of a team that has lost a client: the lobby is written, the
-- messages are sent.
unfoldable pub leave_team : World → ℕ → ℕ → ℕ → Lobby → World
leave_team w c client_id l lob =
    let lob' = clear_regs lob client_id in
    let w' = send (put_lobby w l lob') (team_leave c l) in
    record w' { out = w'.out ++ sync_quest lob' }

-- -1 on failure, 1 if the team is now empty, else 0.
unfoldable pub lobby_remove_client_locked : ℕ → World → ℕ → ℕ → ℕ → ℤ × World
lobby_remove_client_locked now w c client_id l =
    let lob = w.lobbies l in
    let lob' = vacate now w.clients lob client_id in
    let w1 = detach w c l in
    if not (holds (get_or lob.clients client_id none) c)
    then (neg 1, w)
    else if lob'.type == type_lobby
    then (pos 0, put_lobby w1 l lob')
    else (if lob'.num_clients == 0 then pos 1 else pos 0, leave_team w1 c client_id l lob')
