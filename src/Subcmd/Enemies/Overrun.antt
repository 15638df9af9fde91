-- ===== src/Subcmd/Enemies/Overrun.antt =====
-- The test of an enemy's number in `handle_bb_mhit` and `handle_bb_req_exp` of src/subcmd.c.
use ship_server.Base.{
  ℕ, ◌≡◌, ◌≢◌, inl, inr, ◌↔◌, refl, false, not, ◌||◌, none, some, length, get_elem?-some,
  get_elem?-none, ltb, ◌==◌, ℤ, arith, has_flag, Bool-cases,
}
use ship_server.Lobby.{type_lobby}
use ship_server.Subcmd.Enemies.{
  Enemy, Field, EnemyPacket, past_end, overrun, bit_of, hit_enemy, handle_bb_mhit, claim_enemy,
  claim_exp,
}
use ship_server.Subcmd.Enemies.Claims.{IsAbout, good_size}

claim_enemy-inside :
    (f : Field) (id : ℕ) (pkt : EnemyPacket) (en : Enemy) → claim_enemy f id pkt (some en) ≢ overrun
unfolding claim_enemy
claim_enemy-inside f id pkt en = elim (Bool-cases (has_flag en.clients_hit (bit_of id))) [
  | inl e ↦ rw e (λ q. cc)
  | inr e ↦ rw e (λ q. cc)
]

claim_enemy-none : (f : Field) (id : ℕ) (pkt : EnemyPacket) → claim_enemy f id pkt none ≡ overrun
unfolding claim_enemy
claim_enemy-none f id pkt = refl

handle_bb_mhit-past_end :
    (sent : ℤ) (f : Field) (id : ℕ) (pkt : EnemyPacket)
    → f.type ≢ type_lobby
    → (not (pkt.pkt_len == 0x14) || not (pkt.size == 0x03)) ≡ false
    → handle_bb_mhit sent f id pkt ≡ past_end ↔ pkt.enemy_id ≡ length f.enemies
unfolding handle_bb_mhit hit_enemy
handle_bb_mhit-past_end sent f id pkt ne ok =
    let team : (f.type == type_lobby) ≡ false = ground arith in
    elim (Bool-cases (ltb (length f.enemies) pkt.enemy_id)) [
      | inl above ↦ rw team (rw ok (rw above ((λ q. cc), (λ q. absurd (ground arith)))))
      | inr not_above ↦ elim (Bool-cases (ltb pkt.enemy_id (length f.enemies))) [
        | inl below ↦
            let (en, e) = get_elem?-some f.enemies pkt.enemy_id (ground arith) in
            rw team (rw ok (rw not_above (rw e ((λ q. cc), (λ q. absurd (ground arith))))))
        | inr at_end ↦ rw team (
            rw ok (
              rw not_above (
                rw (get_elem?-none f.enemies pkt.enemy_id (ground arith))
                  ((λ q. ground arith), (λ q. refl)))))
      ]
    ]

claim_exp-overrun :
    (f : Field) (id : ℕ) (pkt : EnemyPacket)
    → f.type ≢ type_lobby
    → (not (pkt.pkt_len == 0x14) || not (pkt.size == 0x03)) ≡ false
    → claim_exp f id pkt ≡ overrun ↔ pkt.enemy_id ≡ length f.enemies
unfolding claim_exp
claim_exp-overrun f id pkt ne ok =
    let team : (f.type == type_lobby) ≡ false = ground arith in
    elim (Bool-cases (ltb (length f.enemies) pkt.enemy_id)) [
      | inl above ↦ rw team (rw ok (rw above ((λ q. cc), (λ q. absurd (ground arith)))))
      | inr not_above ↦ elim (Bool-cases (ltb pkt.enemy_id (length f.enemies))) [
        | inl below ↦
            let (en, e) = get_elem?-some f.enemies pkt.enemy_id (ground arith) in
            rw team (
              rw ok (
                rw not_above (
                  rw e (
                    (λ q. absurd (claim_enemy-inside f id pkt en q)),
                    (λ q. absurd (ground arith)),
                  ))))
        | inr at_end ↦ rw team (
            rw ok (
              rw not_above (
                rw (get_elem?-none f.enemies pkt.enemy_id (ground arith))
                  ((λ q. ground arith), (λ q. claim_enemy-none f id pkt)))))
      ]
    ]

-- For a team and a packet of the right size, both handlers use the entry after the last enemy
-- exactly when the packet's number is the count of enemies: the test lets that number through, and
-- only that one past the end.
pub enemy_past_end :
    (sent : ℤ) (f : Field) (id mid : ℕ) (pkt : EnemyPacket)
    → f.type ≢ type_lobby
    → IsAbout mid pkt
    → (handle_bb_mhit sent f id pkt ≡ past_end ↔ mid ≡ length f.enemies)
      × (claim_exp f id pkt ≡ overrun ↔ mid ≡ length f.enemies)
enemy_past_end sent f id mid pkt ne ok =
    let size = good_size mid pkt ok in
    let same = ok.2 in
    rw (← same) (handle_bb_mhit-past_end sent f id pkt ne size, claim_exp-overrun f id pkt ne size)
