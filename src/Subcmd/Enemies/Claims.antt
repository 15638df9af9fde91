-- ===== src/Subcmd/Enemies/Claims.antt =====
-- A client that has hit an enemy is given its experience when it asks.
use ship_server.Base.{
  ℕ, ◌≡◌, ◌≢◌, ◌<◌, inl, inr, refl, ap, sym, subst, ◌∙◌, true, false, not, ◌||◌, some, length,
  get_elem?, set, get_elem?-set_self, get_elem?-set_ne, ltb, ◌==◌, ==→eq, ℤ, arith, has_flag,
  Bool-cases, get_elem?-lt, some_eq,
}
use ship_server.Lobby.{type_lobby}
use ship_server.Subcmd.Enemies.{
  Enemy, Field, EnemyPacket, hit, reward, bit_of, put_enemy, mark_hit, hit_enemy, handle_bb_mhit,
  claim_enemy, claim_exp,
}
use ship_server.Subcmd.Enemies.Bits.{dead_word, set_flag-HitKeeps, hit_sets, dead_word-ClaimKeeps}
use ship_server.Subcmd.Enemies.Awards.{
  Rewarded, Marked, Reached, counts, claim_exp-Rewarded, handle_bb_mhit-Marked,
}

-- The client has hit the enemy and not been given its experience.
abbrev HasClaim : ℕ → ℕ → Field → Type 0
HasClaim id mid f =
    (en : Enemy) × (get_elem? f.enemies mid ≡ some en)
    × (has_flag en.clients_hit (bit_of id) ≡ true)

put_enemy-HasClaim :
    (id mid m : ℕ) (f : Field) (en en' : Enemy)
    → get_elem? f.enemies m ≡ some en
    → HasClaim id mid f
    → (m ≡ mid
        → has_flag en.clients_hit (bit_of id) ≡ true
        → has_flag en'.clients_hit (bit_of id) ≡ true)
    → HasClaim id mid (put_enemy f m en')
put_enemy-HasClaim id mid m f en en' e (en0, e0, was_hit) keep = elim (Bool-cases (m == mid)) [
  | inl same ↦
      let q : m ≡ mid = ==→eq m mid same in
      let q' : en0 ≡ en =
        some_eq (get_elem? f.enemies mid) en0 en e0 (ap (get_elem? f.enemies) (sym q) ∙ e) in
      (
        en',
        ap (get_elem? (set f.enemies m en')) (sym q)
            ∙ get_elem?-set_self f.enemies m en' (get_elem?-lt f.enemies m en e),
        keep q (subst (λ k. has_flag k.clients_hit (bit_of id) ≡ true) q' was_hit),
      )
  | inr other ↦
      let ne : m ≢ mid = ground arith in (en0, get_elem?-set_ne f.enemies en' ne ∙ e0, was_hit)
]

mark_hit-keeps :
    (id c : ℕ) (en : Enemy)
    → id < 4
    → c < 4
    → has_flag en.clients_hit (bit_of id) ≡ true
    → has_flag (mark_hit c en).clients_hit (bit_of id) ≡ true
unfolding mark_hit
mark_hit-keeps id c en lt lt' was_hit = elim (Bool-cases (has_flag en.clients_hit 0x80)) [
  | inl dead ↦ rw dead was_hit
  | inr alive ↦ rw alive (set_flag-HitKeeps en.clients_hit c id lt' lt was_hit)
]

hit-HasClaim :
    (id mid c : ℕ) (f f' : Field) (pkt : EnemyPacket) (rv : ℤ)
    → id < 4
    → c < 4
    → Marked f c pkt (hit rv f')
    → HasClaim id mid f
    → HasClaim id mid f'
hit-HasClaim id mid c f f' pkt rv lt lt' (inl e) s = subst (HasClaim id mid) (sym e) s
hit-HasClaim id mid c f f' pkt rv lt lt' (inr (en, e, e')) s = subst (HasClaim id mid) (sym e') (
    put_enemy-HasClaim id mid pkt.enemy_id f en (mark_hit c en) e s
      (λ q was_hit. mark_hit-keeps id c en lt lt' was_hit))

claim-HasClaim :
    (id mid c exp : ℕ) (f f' : Field) (pkt : EnemyPacket)
    → id < 4
    → c < 4
    → counts id mid c pkt ≡ 0
    → Rewarded f c pkt (reward f' exp)
    → HasClaim id mid f
    → HasClaim id mid f'
claim-HasClaim id mid c exp f f' pkt lt lt' other (en, e, was_hit, e') s =
    let en' = record en { clients_hit = dead_word en.clients_hit c } in
    subst (HasClaim id mid) (sym e') (
      put_enemy-HasClaim id mid pkt.enemy_id f en en' e s
        (λ q. dead_word-ClaimKeeps en.clients_hit c id lt' lt (λ same. ground arith)))

-- No claim that is rewarded in between counts.
Reached-HasClaim :
    (id mid : ℕ) (f : Field) (n : ℕ) (g : Field)
    → id < 4
    → n ≡ 0
    → Reached id mid f n g
    → HasClaim id mid f
    → HasClaim id mid g
Reached-HasClaim id mid f n g lt zero_claims Reached.start s = s
Reached-HasClaim id mid f n g lt zero_claims (Reached.hits {g = g0} sent rv c pkt r lt' e) s =
    hit-HasClaim id mid c g0 g pkt rv lt lt'
      (subst (Marked g0 c pkt) e (handle_bb_mhit-Marked sent g0 c pkt))
      (Reached-HasClaim id mid f n g0 lt zero_claims r s)
Reached-HasClaim id mid f n g lt zero_claims
      (Reached.claims {n = m} {exp = exp} {g = g0} c pkt r lt' e) s =
    claim-HasClaim id mid c exp g0 g pkt lt lt' (omega arith)
      (subst (Rewarded g0 c pkt) e (claim_exp-Rewarded g0 c pkt))
      (Reached-HasClaim id mid f m g0 lt (omega arith) r s)

hit-type :
    (f f' : Field) (c : ℕ) (pkt : EnemyPacket) (rv : ℤ)
    → Marked f c pkt (hit rv f')
    → f'.type ≡ f.type
hit-type f f' c pkt rv (inl e) = ap (λ (k : Field). k.type) e
hit-type f f' c pkt rv (inr (en, e, e')) = ap (λ (k : Field). k.type) e'

Reached-type : (id mid : ℕ) (f : Field) (n : ℕ) (g : Field) → Reached id mid f n g → g.type ≡ f.type
Reached-type id mid f n g Reached.start = refl
Reached-type id mid f n g (Reached.hits {g = g0} sent rv c pkt r lt e) =
    hit-type g0 g c pkt rv (subst (Marked g0 c pkt) e (handle_bb_mhit-Marked sent g0 c pkt))
    ∙ Reached-type id mid f n g0 r
Reached-type id mid f n g (Reached.claims {n = m} {g = g0} c pkt r lt e) =
    let (en, e0, was_hit, e') = subst (Rewarded g0 c pkt) e (claim_exp-Rewarded g0 c pkt) in
    ap (λ (k : Field). k.type) e' ∙ Reached-type id mid f m g0 r

-- A packet of the size that the handlers ask for, about an enemy.
abbrev pub IsAbout : ℕ → EnemyPacket → Type 0
IsAbout mid pkt = (pkt.pkt_len ≡ 0x14) × (pkt.size ≡ 0x03) × (pkt.enemy_id ≡ mid)

pub good_size :
    (mid : ℕ) (pkt : EnemyPacket)
    → IsAbout mid pkt
    → (not (pkt.pkt_len == 0x14) || not (pkt.size == 0x03)) ≡ false
good_size mid pkt (e1, e2, e3) = rw e1 (rw e2 refl)

claim_enemy-reward :
    (f : Field) (id : ℕ) (pkt : EnemyPacket) (en : Enemy)
    → has_flag en.clients_hit (bit_of id) ≡ true
    → (g : Field) × ((exp : ℕ) × (claim_enemy f id pkt (some en) ≡ reward g exp))
unfolding claim_enemy
claim_enemy-reward f id pkt en was_hit = rw was_hit (_, (_, refl))

claim_exp-reward :
    (f : Field) (id mid : ℕ) (pkt : EnemyPacket)
    → f.type ≢ type_lobby
    → IsAbout mid pkt
    → HasClaim id mid f
    → (g : Field) × ((exp : ℕ) × (claim_exp f id pkt ≡ reward g exp))
unfolding claim_exp
claim_exp-reward f id mid pkt ne ok (en, e, was_hit) =
    let team : (f.type == type_lobby) ≡ false = ground arith in
    let below : ltb (length f.enemies) pkt.enemy_id ≡ false =
      ground (arith, get_elem?-lt f.enemies mid en e) in
    let found : get_elem? f.enemies pkt.enemy_id ≡ some en = ap (get_elem? f.enemies) ok.2 ∙ e in
    rw team
      (rw (good_size mid pkt ok) (rw below (rw found (claim_enemy-reward f id pkt en was_hit))))

handle_bb_mhit-marks :
    (sent : ℤ) (f : Field) (id mid : ℕ) (pkt : EnemyPacket) (en : Enemy)
    → f.type ≢ type_lobby
    → IsAbout mid pkt
    → get_elem? f.enemies mid ≡ some en
    → handle_bb_mhit sent f id pkt ≡ hit sent (put_enemy f mid (mark_hit id en))
unfolding handle_bb_mhit hit_enemy
handle_bb_mhit-marks sent f id mid pkt en ne ok e =
    let team : (f.type == type_lobby) ≡ false = ground arith in
    let below : ltb (length f.enemies) pkt.enemy_id ≡ false =
      ground (arith, get_elem?-lt f.enemies mid en e) in
    let found : get_elem? f.enemies pkt.enemy_id ≡ some en = ap (get_elem? f.enemies) ok.2 ∙ e in
    rw team (rw (good_size mid pkt ok) (rw below (rw found (rw ok.2 refl))))

mark_hit-sets :
    (id : ℕ) (en : Enemy)
    → id < 4
    → has_flag en.clients_hit 0x80 ≡ false
    → has_flag (mark_hit id en).clients_hit (bit_of id) ≡ true
unfolding mark_hit
mark_hit-sets id en lt alive = rw alive (hit_sets en.clients_hit id lt)

-- After a client of a team has hit an enemy that is not dead, whatever the four clients do then,
-- hits and claims in any order, the client's own claim on that enemy is rewarded, as long as it has
-- not been rewarded for it before. The packets are of the size that the handlers ask for.
pub claim_exp-rewards :
    (sent : ℤ) (f : Field) (id mid : ℕ) (en : Enemy) (pkt pkt' : EnemyPacket)
    → id < 4
    → f.type ≢ type_lobby
    → get_elem? f.enemies mid ≡ some en
    → has_flag en.clients_hit 0x80 ≡ false
    → IsAbout mid pkt
    → IsAbout mid pkt'
    → (f' : Field) × (handle_bb_mhit sent f id pkt ≡ hit sent f')
      × ((g : Field)
          → Reached id mid f' 0 g
          → (g' : Field) × ((exp : ℕ) × (claim_exp g id pkt' ≡ reward g' exp)))
claim_exp-rewards sent f id mid en pkt pkt' lt ne e alive ok ok' =
    let f' = put_enemy f mid (mark_hit id en) in
    let own : HasClaim id mid f' = (
      mark_hit id en,
      get_elem?-set_self f.enemies mid (mark_hit id en) (get_elem?-lt f.enemies mid en e),
      mark_hit-sets id en lt alive,
    ) in
    (
      f',
      handle_bb_mhit-marks sent f id mid pkt en ne ok e,
      λ g r.
          claim_exp-reward g id mid pkt' (λ q. ne (sym (Reached-type id mid f' 0 g r) ∙ q)) ok'
            (Reached-HasClaim id mid f' 0 g lt refl r own),
    )
