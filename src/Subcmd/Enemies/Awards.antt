-- ===== src/Subcmd/Enemies/Awards.antt =====
-- Experience for an enemy, over any sequence of hits and claims by the clients of a team.
use ship_server.Base.{
  ℕ, ◌+◌, ◌≡◌, ◌≢◌, ◌<◌, ◌⊎◌, inl, inr, refl, ap, sym, subst, ◌∙◌, ◌≤◌, true, false, not, ◌&&◌,
  ◌||◌, Option, none, some, length, get_elem?, set, get_elem?-set_self, get_elem?-set_ne, ltb, ◌==◌,
  ==→eq, if◌then◌else◌, ℤ, arith, has_flag, Bool-cases, get_elem?-lt, some_eq,
}
use ship_server.Lobby.{type_lobby}
use ship_server.Subcmd.Enemies.{
  Enemy, Field, EnemyPacket, Hit, past_end, hit, Claim, overrun, refused, reward, bit_of, put_enemy,
  mark_hit, hit_enemy, handle_bb_mhit, claim_enemy, claim_exp,
}
use ship_server.Subcmd.Enemies.Bits.{
  dead_word, dead_word-dead, dead_word-claimed, dead_word-KeepsClear,
}

-- What a claim that is rewarded has found, and what it leaves.
abbrev pub Rewarded : Field → ℕ → EnemyPacket → Claim → Type 0
Rewarded f id pkt overrun = Unit
Rewarded f id pkt (refused code) = Unit
Rewarded f id pkt (reward f' exp) =
    (en : Enemy) × (get_elem? f.enemies pkt.enemy_id ≡ some en)
    × (has_flag en.clients_hit (bit_of id) ≡ true)
    × (f' ≡ put_enemy f pkt.enemy_id (record en { clients_hit = dead_word en.clients_hit id }))

claim_enemy-Rewarded :
    (f : Field) (id : ℕ) (pkt : EnemyPacket) (o : Option Enemy)
    → get_elem? f.enemies pkt.enemy_id ≡ o
    → Rewarded f id pkt (claim_enemy f id pkt o)
unfolding claim_enemy
claim_enemy-Rewarded f id pkt none e = tt
claim_enemy-Rewarded f id pkt (some en) e =
    elim (Bool-cases (has_flag en.clients_hit (bit_of id))) [
      | inl was_hit ↦ rw was_hit (en, e, was_hit, refl)
      | inr missed ↦ rw missed tt
    ]

pub claim_exp-Rewarded :
    (f : Field) (id : ℕ) (pkt : EnemyPacket) → Rewarded f id pkt (claim_exp f id pkt)
unfolding claim_exp
claim_exp-Rewarded f id pkt = elim (Bool-cases (f.type == type_lobby)) [
  | inl e1 ↦ rw e1 tt
  | inr e1 ↦ rw e1 (elim (Bool-cases (not (pkt.pkt_len == 0x14) || not (pkt.size == 0x03))) [
    | inl e2 ↦ rw e2 tt
    | inr e2 ↦ rw e2 (elim (Bool-cases (ltb (length f.enemies) pkt.enemy_id)) [
      | inl e3 ↦ rw e3 tt
      | inr e3 ↦ rw e3 (claim_enemy-Rewarded f id pkt (get_elem? f.enemies pkt.enemy_id) refl)
    ])
  ])
]

-- What a hit leaves: the same team, or the enemy marked.
abbrev pub Marked : Field → ℕ → EnemyPacket → Hit → Type 0
Marked f id pkt past_end = Unit
Marked f id pkt (hit rv f') =
    (f' ≡ f)
    ⊎ ((en : Enemy) × (get_elem? f.enemies pkt.enemy_id ≡ some en)
        × (f' ≡ put_enemy f pkt.enemy_id (mark_hit id en)))

hit_enemy-Marked :
    (sent : ℤ) (f : Field) (id : ℕ) (pkt : EnemyPacket) (o : Option Enemy)
    → get_elem? f.enemies pkt.enemy_id ≡ o
    → Marked f id pkt (hit_enemy sent f id pkt.enemy_id o)
unfolding hit_enemy
hit_enemy-Marked sent f id pkt none e = tt
hit_enemy-Marked sent f id pkt (some en) e = inr (en, e, refl)

pub handle_bb_mhit-Marked :
    (sent : ℤ) (f : Field) (id : ℕ) (pkt : EnemyPacket)
    → Marked f id pkt (handle_bb_mhit sent f id pkt)
unfolding handle_bb_mhit
handle_bb_mhit-Marked sent f id pkt = elim (Bool-cases (f.type == type_lobby)) [
  | inl e1 ↦ rw e1 (inl refl)
  | inr e1 ↦ rw e1 (elim (Bool-cases (not (pkt.pkt_len == 0x14) || not (pkt.size == 0x03))) [
    | inl e2 ↦ rw e2 (inl refl)
    | inr e2 ↦ rw e2 (elim (Bool-cases (ltb (length f.enemies) pkt.enemy_id)) [
      | inl e3 ↦ rw e3 (inl refl)
      | inr e3 ↦ rw e3 (hit_enemy-Marked sent f id pkt (get_elem? f.enemies pkt.enemy_id) refl)
    ])
  ])
]

-- The enemy is dead, and the client has no claim on it.
abbrev IsDone : ℕ → Enemy → Type 0
IsDone id en = (has_flag en.clients_hit 0x80 ≡ true) × (has_flag en.clients_hit (bit_of id) ≡ false)

abbrev IsSettled : ℕ → ℕ → Field → Type 0
IsSettled id mid f = (en : Enemy) × (get_elem? f.enemies mid ≡ some en) × IsDone id en

-- Whether a claim is that of the client on the enemy.
abbrev pub counts : ℕ → ℕ → ℕ → EnemyPacket → ℕ
counts id mid c pkt = if c == id && pkt.enemy_id == mid then 1 else 0

-- A team reached from `f` by hits and claims of the four clients in any order, with the number of
-- times that the client `id` was rewarded for the enemy `mid`.
pub data Reached (id mid : ℕ) (f : Field) : ℕ → Field → Type 0 where
  start : Reached id mid f 0 f
  hits :
      {n : ℕ} {g g' : Field}
      → (sent rv : ℤ) (c : ℕ) (pkt : EnemyPacket) → Reached id mid f n g
      → c < 4
      → handle_bb_mhit sent g c pkt ≡ hit rv g'
      → Reached id mid f n g'
  claims :
      {n exp : ℕ} {g g' : Field}
      → (c : ℕ) (pkt : EnemyPacket) → Reached id mid f n g
      → c < 4
      → claim_exp g c pkt ≡ reward g' exp
      → Reached id mid f (n + counts id mid c pkt) g'

-- The enemy that stands where a settled one stands.
settled_enemy :
    (id mid m : ℕ) (f : Field) (en : Enemy)
    → IsSettled id mid f
    → get_elem? f.enemies m ≡ some en
    → m ≡ mid
    → IsDone id en
settled_enemy id mid m f en (en0, e0, done) e q =
    subst (IsDone id)
      (some_eq (get_elem? f.enemies mid) en0 en e0 (ap (get_elem? f.enemies) (sym q) ∙ e)) done

put_enemy-settles :
    (id mid m : ℕ) (f : Field) (en en' : Enemy)
    → get_elem? f.enemies m ≡ some en
    → m ≡ mid
    → IsDone id en'
    → IsSettled id mid (put_enemy f m en')
put_enemy-settles id mid m f en en' e q done = (
  en',
  ap (get_elem? (set f.enemies m en')) (sym q)
      ∙ get_elem?-set_self f.enemies m en' (get_elem?-lt f.enemies m en e),
  done,
)

-- A write keeps a settled enemy settled when what is written in its place is done with.
put_enemy-IsSettled :
    (id mid m : ℕ) (f : Field) (en en' : Enemy)
    → get_elem? f.enemies m ≡ some en
    → IsSettled id mid f
    → (IsDone id en → IsDone id en')
    → IsSettled id mid (put_enemy f m en')
put_enemy-IsSettled id mid m f en en' e s keep = elim (Bool-cases (m == mid)) [
  | inl same ↦
      let q : m ≡ mid = ==→eq m mid same in
      put_enemy-settles id mid m f en en' e q (keep (settled_enemy id mid m f en s e q))
  | inr other ↦
      let ne : m ≢ mid = ground arith in (s.0, get_elem?-set_ne f.enemies en' ne ∙ s.1, s.2)
]

mark_hit-dead : (c : ℕ) (en : Enemy) → has_flag en.clients_hit 0x80 ≡ true → mark_hit c en ≡ en
unfolding mark_hit
mark_hit-dead c en dead = rw dead refl

hit-IsSettled :
    (id mid c : ℕ) (f f' : Field) (pkt : EnemyPacket) (rv : ℤ)
    → Marked f c pkt (hit rv f')
    → IsSettled id mid f
    → IsSettled id mid f'
hit-IsSettled id mid c f f' pkt rv (inl e) s = subst (IsSettled id mid) (sym e) s
hit-IsSettled id mid c f f' pkt rv (inr (en, e, e')) s = subst (IsSettled id mid) (sym e') (
    put_enemy-IsSettled id mid pkt.enemy_id f en (mark_hit c en) e s
      (λ done. subst (IsDone id) (sym (mark_hit-dead c en done.0)) done))

claim-IsSettled :
    (id mid c exp : ℕ) (f f' : Field) (pkt : EnemyPacket)
    → id < 4
    → c < 4
    → Rewarded f c pkt (reward f' exp)
    → IsSettled id mid f
    → IsSettled id mid f'
claim-IsSettled id mid c exp f f' pkt lt lt' (en, e, was_hit, e') s =
    let en' = record en { clients_hit = dead_word en.clients_hit c } in
    subst (IsSettled id mid) (sym e') (
      put_enemy-IsSettled id mid pkt.enemy_id f en en' e s (λ done. (
        dead_word-dead en.clients_hit c lt',
        dead_word-KeepsClear en.clients_hit c id lt' lt done.1,
      )))

-- The claim that counts settles the enemy, which was not settled.
claim-settles :
    (id mid exp : ℕ) (f f' : Field) (pkt : EnemyPacket)
    → id < 4
    → pkt.enemy_id ≡ mid
    → Rewarded f id pkt (reward f' exp)
    → IsSettled id mid f'
claim-settles id mid exp f f' pkt lt q (en, e, was_hit, e') =
    let en' = record en { clients_hit = dead_word en.clients_hit id } in
    subst (IsSettled id mid) (sym e') (
      put_enemy-settles id mid pkt.enemy_id f en en' e q
        (dead_word-dead en.clients_hit id lt, dead_word-claimed en.clients_hit id lt))

claim-unsettled :
    (id mid exp : ℕ) (f f' : Field) (pkt : EnemyPacket)
    → pkt.enemy_id ≡ mid
    → Rewarded f id pkt (reward f' exp)
    → IsSettled id mid f
    → ⊥
claim-unsettled id mid exp f f' pkt q (en, e, was_hit, e') s =
    let done = settled_enemy id mid pkt.enemy_id f en s e q in cc

-- How often the client was rewarded, and what is known of the enemy then.
abbrev IsOnce : ℕ → ℕ → ℕ → Field → Type 0
IsOnce id mid n f = (n ≡ 0) ⊎ ((n ≡ 1) × IsSettled id mid f)

claim-IsOnce :
    (id mid c exp n : ℕ) (f f' : Field) (pkt : EnemyPacket)
    → id < 4
    → c < 4
    → Rewarded f c pkt (reward f' exp)
    → IsOnce id mid n f
    → IsOnce id mid (n + counts id mid c pkt) f'
claim-IsOnce id mid c exp n f f' pkt lt lt' r once =
    elim (Bool-cases (c == id && pkt.enemy_id == mid)) [
      | inr other ↦ rw other (elim once [
        | inl none_yet ↦ inl (omega arith)
        | inr (one, s) ↦ inr (omega arith, claim-IsSettled id mid c exp f f' pkt lt lt' r s)
      ])
      | inl own ↦
          let same : c ≡ id = ground arith in
          let there : pkt.enemy_id ≡ mid = ground arith in
          let r' : Rewarded f id pkt (reward f' exp) =
            subst (λ k. Rewarded f k pkt (reward f' exp)) same r in
          rw own (elim once [
            | inl none_yet ↦ inr (omega arith, claim-settles id mid exp f f' pkt lt there r')
            | inr (one, s) ↦ absurd (claim-unsettled id mid exp f f' pkt there r' s)
          ])
    ]

Reached-IsOnce :
    (id mid : ℕ) (f : Field) (n : ℕ) (g : Field) → id < 4 → Reached id mid f n g → IsOnce id mid n g
Reached-IsOnce id mid f n g lt Reached.start = inl refl
Reached-IsOnce id mid f n g lt (Reached.hits {g = g0} sent rv c pkt r lt' e) =
    elim (Reached-IsOnce id mid f n g0 lt r) [
      | inl none_yet ↦ inl none_yet
      | inr (one, s) ↦ inr (
        one,
        hit-IsSettled id mid c g0 g pkt rv
            (subst (Marked g0 c pkt) e (handle_bb_mhit-Marked sent g0 c pkt)) s,
      )
    ]
Reached-IsOnce id mid f n g lt (Reached.claims {n = m} {exp = exp} {g = g0} c pkt r lt' e) =
    claim-IsOnce id mid c exp m g0 g pkt lt lt'
      (subst (Rewarded g0 c pkt) e (claim_exp-Rewarded g0 c pkt))
      (Reached-IsOnce id mid f m g0 lt r)

-- In any sequence of hits and claims by the four clients of a team, from any state of its enemies,
-- a client is given experience for an enemy at most once.
pub claim_exp-once : (id mid n : ℕ) (f g : Field) → id < 4 → Reached id mid f n g → n ≤ 1
claim_exp-once id mid n f g lt r = elim (Reached-IsOnce id mid f n g lt r) [
  | inl none_yet ↦ omega arith
  | inr (one, s) ↦ omega arith
]
