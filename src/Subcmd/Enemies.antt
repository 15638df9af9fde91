-- ===== src/Subcmd/Enemies.antt =====
-- src/subcmd.c: `handle_bb_mhit` and `handle_bb_req_exp`, which count the hits on the enemies of a
-- Blue Burst team and give the experience for them. `map_enemies` is a list of `count` entries;
-- reading past it is a result of its own.
pub mod Bits
pub mod Awards
pub mod Claims
pub mod Overrun
mod Examples
use ship_server.Base.{
  ℕ, zero, suc, ◌+◌, ◌-◌, ◌*◌, ◌/◌, ◌%◌, ◌^◌, Bool, true, false, not, ◌&&◌, ◌||◌, List, [], ◌∷◌,
  Option, none, some, length, get_elem?, set, ltb, leb, ◌==◌, if◌then◌else◌, ℤ, pos, neg, u16, u32,
  has_flag, set_flag, clear_flag,
}
use ship_server.Lobby.{type_lobby}
use ship_server.Clients.Levels.{LevelEntry, Hero, Note, Given, client_give_exp}

-- `game_enemy_t`, as far as the handlers use it.
pub record Enemy : Type 0 where
  pub bp_entry : ℕ
  pub clients_hit : ℕ
  pub last_client : ℕ

-- The lobby's type, `map_enemies`, and the experience of the entries of `bb_params`.
pub record Field : Type 0 where
  pub type : ℕ
  pub enemies : List Enemy
  pub bb_exp : ℕ → ℕ

-- `subcmd_bb_mhit_pkt_t` and `subcmd_bb_req_exp_pkt_t`
pub record EnemyPacket : Type 0 where
  pub pkt_len : ℕ
  pub size : ℕ
  pub enemy_id : ℕ
  pub last_hitter : ℕ

-- `past_end` is a use of the entry after the last.
pub data Hit : Type 0 where
  past_end : Hit
  hit : ℤ → Field → Hit

-- `reward` with the experience to give.
pub data Claim : Type 0 where
  overrun : Claim
  refused : ℤ → Claim
  reward : Field → ℕ → Claim

data Requested : Type 0 where
  outside : Requested
  requested : Field → Given → Requested

-- `1 << c->client_id`
abbrev pub bit_of : ℕ → ℕ
bit_of id = 2 ^ id

abbrev pub put_enemy : Field → ℕ → Enemy → Field
put_enemy f mid en = record f { enemies = set f.enemies mid en }

-- A hit counts unless the enemy is dead.
pub mark_hit : ℕ → Enemy → Enemy
mark_hit id en =
    if has_flag en.clients_hit 0x80
    then en
    else record en { clients_hit = set_flag en.clients_hit (bit_of id); last_client = id }

pub hit_enemy : ℤ → Field → ℕ → ℕ → Option Enemy → Hit
hit_enemy sent f id mid none = past_end
hit_enemy sent f id mid (some en) = hit sent (put_enemy f mid (mark_hit id en))

-- `sent` is what sending the packet on answers.
pub handle_bb_mhit : ℤ → Field → ℕ → EnemyPacket → Hit
handle_bb_mhit sent f id pkt =
    if f.type == type_lobby
    then hit (neg 1) f
    else if not (pkt.pkt_len == 0x14) || not (pkt.size == 0x03)
    then hit (neg 1) f
    else if ltb (length f.enemies) pkt.enemy_id
    then hit (neg 1) f
    else hit_enemy sent f id pkt.enemy_id (get_elem? f.enemies pkt.enemy_id)

pub claim_enemy : Field → ℕ → EnemyPacket → Option Enemy → Claim
claim_enemy f id pkt none = overrun
claim_enemy f id pkt (some en) =
    let dead = record en { clients_hit = set_flag (clear_flag en.clients_hit (bit_of id)) 0x80 } in
    let exp = f.bb_exp en.bp_entry in
    if not (has_flag en.clients_hit (bit_of id))
    then refused (pos 0)
    else reward (put_enemy f pkt.enemy_id dead)
        (if pkt.last_hitter == 0 then (exp * 80) % u32 / 100 else exp)

-- `handle_bb_req_exp` up to the call of `client_give_exp`.
pub claim_exp : Field → ℕ → EnemyPacket → Claim
claim_exp f id pkt =
    if f.type == type_lobby
    then refused (neg 1)
    else if not (pkt.pkt_len == 0x14) || not (pkt.size == 0x03)
    then refused (neg 1)
    else if ltb (length f.enemies) pkt.enemy_id
    then refused (neg 1)
    else claim_enemy f id pkt (get_elem? f.enemies pkt.enemy_id)

give_claim : (Note → Bool) → List LevelEntry → Field → Hero → Claim → Requested
give_claim fails levels f c overrun = outside
give_claim fails levels f c (refused code) = requested f (Given.given code c [])
give_claim fails levels f c (reward f' exp) = requested f' (client_give_exp fails levels c exp)

handle_bb_req_exp : (Note → Bool) → List LevelEntry → Field → Hero → ℕ → EnemyPacket → Requested
handle_bb_req_exp fails levels f c id pkt = give_claim fails levels f c (claim_exp f id pkt)
