-- ===== src/Clients/Levels/Gifts.antt =====
-- `client_give_level` and `client_give_level_v2` of src/clients.c.
use ship_server.Base.{
  ℕ, zero, suc, ◌+◌, ◌-◌, ◌%◌, ◌≡◌, ◌≤◌, ◌<◌, ◌⊎◌, inl, inr, refl, ap, ◌∙◌, Bool, true, false, not,
  ◌&&◌, ◌||◌, List, [], ◌∷◌, some, get_elem?, take, drop, length, ltb, leb, ◌==◌, pos, negsuc, u32,
  arith, Bool-cases, get_elem?-some,
}
use ship_server.Lobby.{bb, dcv2, pc}
use ship_server.Clients.Levels.{
  LevelEntry, Hero, Note, rejoins, gained_exp, new_level, Given, no_fuel, overrun, given,
  give_stats_v2, give_level_entry, client_give_level, level_v2, levels_v2, finish_v2,
  client_give_level_v2,
}
use ship_server.Clients.Levels.Ups.{give_all, next_levels, drop-get_elem?}

-- The experience of the last of some entries.
abbrev last_exp : ℕ → List LevelEntry → ℕ
last_exp exp [] = exp
last_exp exp (ent ∷ ents) = last_exp ent.exp ents

levels_v2_lem :
    (n i : ℕ) (levels : List LevelEntry) (p : Hero)
    → i + n ≤ length levels
    → levels_v2 n i levels p
      ≡ some (record p {
        stats = give_all p.stats (take n (drop i levels));
        exp = last_exp p.exp (take n (drop i levels));
      })
unfolding levels_v2 level_v2 give_stats_v2
levels_v2_lem zero i levels p le = refl
levels_v2_lem (suc n) i levels p le =
    let (ent, e) = get_elem?-some levels i (omega arith) in
    let next : suc i ≡ i + 1 = omega arith in
    let step : take (suc n) (drop i levels) ≡ ent ∷ take n (drop (i + 1) levels) =
      ap (take (suc n)) (drop-get_elem? levels i ent e)
      ∙ ap (λ k. ent ∷ take n (drop k levels)) next in
    rw e (rw step (levels_v2_lem n (i + 1) levels (give_stats_v2 p ent) (omega arith)))

last_exp-take :
    (xs : List LevelEntry) (n exp : ℕ) (ent : LevelEntry)
    → get_elem? xs n ≡ some ent
    → last_exp exp (take (suc n) xs) ≡ ent.exp
last_exp-take [] n exp ent e = cc
last_exp-take (x ∷ xs) zero exp ent e = cc
last_exp-take (x ∷ xs) (suc n) exp ent e = last_exp-take xs n x.exp ent e

get_elem?-drop :
    (xs : List LevelEntry) (i n j : ℕ) → i + n ≡ j → get_elem? (drop i xs) n ≡ get_elem? xs j
get_elem?-drop xs zero n j e = let e' : n ≡ j = omega arith in rw e' refl
get_elem?-drop [] (suc i) n j e = refl
get_elem?-drop (x ∷ xs) (suc i) n zero e = absurd (omega arith)
get_elem?-drop (x ∷ xs) (suc i) n (suc j) e = get_elem?-drop xs i n j (omega arith)

-- A client of version 2 or the PC below the level asked for, up to 199, gets exactly that level,
-- the experience of its entry, and the statistics of all the entries from the level after its own to
-- the level asked for added in order; nothing else changes, the call returns 0 and the client is
-- sent into its lobby again. The table has its 200 entries.
client_give_level_v2_lem :
    (levels : List LevelEntry) (p : Hero) (level_req : ℕ) (ent : LevelEntry)
    → (p.version ≡ dcv2) ⊎ (p.version ≡ pc)
    → p.has_data ≡ true
    → p.level < level_req
    → level_req ≤ 199
    → 200 ≤ length levels
    → get_elem? levels level_req ≡ some ent
    → client_give_level_v2 levels p level_req
      ≡ given
          (pos 0)
          (record p {
            stats = give_all p.stats (next_levels levels p.level (level_req - p.level));
            exp = ent.exp;
            level = level_req;
          })
          (rejoins ∷ [])
unfolding client_give_level_v2 finish_v2
client_give_level_v2_lem levels p level_req ent version present lt le len e =
    let n = level_req - p.level in
    let old : (not (p.version == dcv2) && not (p.version == pc)) ≡ false = known version in
    let allowed : (not p.has_data || ltb 199 level_req) ≡ false = rw present (ground arith) in
    let low : leb level_req p.level ≡ false = ground arith in
    let next : suc (n - 1) ≡ n = omega arith in
    let upper = drop (p.level + 1) levels in
    let reached : last_exp p.exp (take n upper) ≡ ent.exp = rw (← next) (
      last_exp-take upper (n - 1) p.exp ent
        (get_elem?-drop levels (p.level + 1) (n - 1) level_req (omega arith) ∙ e)) in
    rw old (
      rw allowed (
        rw low (
          rw (levels_v2_lem n (p.level + 1) levels p (omega arith)) (
            ap
              (λ k.
                given (pos 0)
                  (record p {
                    stats = give_all p.stats (next_levels levels p.level n);
                    exp = k;
                    level = level_req;
                  })
                  (rejoins ∷ []))
              reached))))
  where
    known :
        (p.version ≡ dcv2) ⊎ (p.version ≡ pc)
        → (not (p.version == dcv2) && not (p.version == pc)) ≡ false
    known (inl q) = rw q refl
    known (inr q) = rw q refl

-- A call leaves the statistics as they were, and a call that returns 0 leaves at least the level
-- asked for.
abbrev pub OnlyLevel : Hero → ℕ → Given → Type 0
OnlyLevel p level_req no_fuel = ⊥
OnlyLevel p level_req overrun = ⊥
OnlyLevel p level_req (given (pos code) p' told) = (p'.stats ≡ p.stats) × (level_req ≤ p'.level)
OnlyLevel p level_req (given (negsuc code) p' told) = p'.stats ≡ p.stats

module _ (fails : Note → Bool) where
  give_level_entry-OnlyLevel :
      (p : Hero) (level_req : ℕ) (ent : LevelEntry)
      → OnlyLevel p level_req (give_level_entry fails p level_req (some ent))
  unfolding give_level_entry
  give_level_entry-OnlyLevel p level_req ent =
      elim (Bool-cases (fails (gained_exp ((ent.exp + u32 - p.exp) % u32)))) [
        | inl e ↦ rw e refl
        | inr e ↦ rw e elim (Bool-cases (fails (new_level p.stats level_req))) [
          | inl e' ↦ rw e' refl
          | inr e' ↦ rw e' (refl, omega arith)
        ]
      ]

  -- `client_give_level` never changes the statistics of a character, on any branch, although a call
  -- that returns 0 leaves it at the level asked for or above: the statistics of the levels that it
  -- skips are lost. The table has its 200 entries.
  pub client_give_level-OnlyLevel :
      (levels : List LevelEntry) (p : Hero) (level_req : ℕ)
      → 200 ≤ length levels
      → OnlyLevel p level_req (client_give_level fails levels p level_req)
  unfolding client_give_level
  client_give_level-OnlyLevel levels p level_req len =
      elim (Bool-cases (not (p.version == bb) || not p.has_data || ltb 199 level_req)) [
        | inl e ↦ rw e refl
        | inr e ↦ elim (Bool-cases (leb level_req p.level)) [
          | inl high ↦ rw e (rw high (refl, ground arith))
          | inr low ↦
              let (ent, e') = get_elem?-some levels level_req (ground arith) in
              rw e (rw low (rw e' (give_level_entry-OnlyLevel p level_req ent)))
        ]
      ]
