-- ===== src/Subcmd/Enemies/Examples.antt =====
-- A team with two enemies: a hit, a claim, and the theorems on them.
use ship_server.Base.{ℕ, ◌*◌, ◌≡◌, ◌≢◌, ◌≤◌, ◌↔◌, refl, [], ◌∷◌, length, pos, arith}
use ship_server.Lobby.{type_game, type_lobby}
use ship_server.Subcmd.Enemies.{
  Enemy, Field, EnemyPacket, hit, past_end, overrun, refused, reward, put_enemy, mark_hit,
  hit_enemy, handle_bb_mhit, claim_enemy, claim_exp,
}
use ship_server.Subcmd.Enemies.Awards.{Reached, claim_exp-once}
use ship_server.Subcmd.Enemies.Claims.{claim_exp-rewards}
use ship_server.Subcmd.Enemies.Overrun.{enemy_past_end}

abbrev booma : Enemy
booma = record { bp_entry = 4; clients_hit = 0; last_client = 0 }

abbrev team : Field
team = record { type = type_game; enemies = booma ∷ booma ∷ []; bb_exp = λ bp. 10 * bp }

abbrev packet : ℕ → EnemyPacket
packet mid = record { pkt_len = 0x14; size = 0x03; enemy_id = mid; last_hitter = 1 }

-- Client 2 has hit the second enemy, and then has its experience.
abbrev team_hit : Field
team_hit = put_enemy team 1 (record booma { clients_hit = 4; last_client = 2 })

abbrev team_dead : Field
team_dead = put_enemy team 1 (record booma { clients_hit = 0x80; last_client = 2 })

a_hit : handle_bb_mhit (pos 0) team 2 (packet 1) ≡ hit (pos 0) team_hit
unfolding handle_bb_mhit hit_enemy mark_hit
a_hit = refl

a_claim : claim_exp team_hit 2 (packet 1) ≡ reward team_dead 40
unfolding claim_exp claim_enemy
a_claim = refl

a_second_claim : claim_exp team_dead 2 (packet 1) ≡ refused (pos 0)
unfolding claim_exp claim_enemy
a_second_claim = refl

one_award : Reached 2 1 team 1 team_dead
one_award =
    Reached.claims {n = 0} 2 (packet 1)
      (Reached.hits (pos 0) (pos 0) 2 (packet 1) Reached.start (omega arith) a_hit) (omega arith)
      a_claim

claim_exp-once_example : 1 ≤ 1
claim_exp-once_example = claim_exp-once 2 1 1 team team_dead (omega arith) one_award

team_type : team.type ≢ type_lobby
team_type = λ q. absurd (omega arith)

claim_exp-rewards_example :
    (f' : Field) × (handle_bb_mhit (pos 0) team 2 (packet 1) ≡ hit (pos 0) f')
    × ((g : Field)
        → Reached 2 1 f' 0 g
        → (g' : Field) × ((exp : ℕ) × (claim_exp g 2 (packet 1) ≡ reward g' exp)))
claim_exp-rewards_example =
    claim_exp-rewards (pos 0) team 2 1 booma (packet 1) (packet 1) (omega arith) team_type refl refl
      (refl, refl, refl) (refl, refl, refl)

enemy_past_end_example :
    (handle_bb_mhit (pos 0) team 2 (packet 2) ≡ past_end ↔ 2 ≡ length team.enemies)
    × (claim_exp team 2 (packet 2) ≡ overrun ↔ 2 ≡ length team.enemies)
enemy_past_end_example = enemy_past_end (pos 0) team 2 2 (packet 2) team_type (refl, refl, refl)
