-- ===== src/Clients/Levels/Ups.antt =====
-- `client_give_exp` of src/clients.c: the level that it reaches, and that its loop ends inside the
-- table.
use ship_server.Base.{
  ℕ, zero, suc, ◌+◌, ◌%◌, ◌≡◌, ◌≤◌, ◌<◌, ◌⊎◌, inl, inr, refl, ap, ◌∙◌, Bool, true, false, not, ◌||◌,
  List, [], ◌∷◌, some, get_elem?, take, drop, length, All, ltb, leb, ◌==◌, u32, arith, Bool-cases,
  get_elem?-some,
}
use ship_server.Lobby.{bb}
use ship_server.Clients.Levels.{
  LevelEntry, Stats, Hero, Note, gained_exp, Given, no_fuel, overrun, given, give_stats, Raised,
  out_of_fuel, past_table, raised, level_up, level_ups, announce, client_give_exp,
}

-- One entry of the table after the other.
abbrev pub give_all : Stats → List LevelEntry → Stats
give_all s [] = s
give_all s (ent ∷ ents) = give_all (give_stats s ent) ents

-- The `n` entries after that of `level`.
abbrev pub next_levels : List LevelEntry → ℕ → ℕ → List LevelEntry
next_levels levels level n = take n (drop (level + 1) levels)

-- The next level is past the last, or its entry asks for more experience.
abbrev IsLast : List LevelEntry → ℕ → ℕ → Type 0
IsLast levels exp_total level =
    (level ≡ 199)
    ⊎ ((ent : LevelEntry) × (get_elem? levels (level + 1) ≡ some ent) × (exp_total < ent.exp))

-- The character has risen by `n` levels to the last that its experience allows.
abbrev RisesBy : List LevelEntry → ℕ → Stats → ℕ → Stats → ℕ → ℕ → Type 0
RisesBy levels exp_total s level s' level' n =
    (level' ≡ level + n)
    × (level' ≤ 199)
    × (s' ≡ give_all s (next_levels levels level n))
    × All (λ ent. ent.exp ≤ exp_total) (next_levels levels level n)
    × IsLast levels exp_total level'

pub drop-get_elem? :
    (xs : List LevelEntry) (i : ℕ) (ent : LevelEntry)
    → get_elem? xs i ≡ some ent
    → drop i xs ≡ ent ∷ drop (suc i) xs
drop-get_elem? [] i ent e = cc
drop-get_elem? (x ∷ xs) zero ent e = cc
drop-get_elem? (x ∷ xs) (suc i) ent e = drop-get_elem? xs i ent e

-- The loop's result: it has ended inside the table, and says whether the level rose.
abbrev Reaches : List LevelEntry → ℕ → Stats → ℕ → Bool → Raised → Type 0
Reaches levels exp_total s level up out_of_fuel = ⊥
Reaches levels exp_total s level up past_table = ⊥
Reaches levels exp_total s level up (raised s' level' up') =
    (n : ℕ) × RisesBy levels exp_total s level s' level' n × (((n ≡ 0) × (up' ≡ up)) ⊎ (up' ≡ true))

stays :
    (levels : List LevelEntry) (exp_total : ℕ) (s : Stats) (level : ℕ) (up : Bool)
    (ent : LevelEntry)
    → level ≤ 199
    → get_elem? levels (level + 1) ≡ some ent
    → leb ent.exp exp_total ≡ false
    → Reaches levels exp_total s level up (raised s level up)
stays levels exp_total s level up ent le e more =
    (0, (omega arith, le, refl, tt, inr (ent, e, ground arith)), inl (refl, refl))

rises :
    (levels : List LevelEntry) (exp_total : ℕ) (s : Stats) (level : ℕ) (up : Bool)
    (ent : LevelEntry) (r : Raised)
    → get_elem? levels (level + 1) ≡ some ent
    → leb ent.exp exp_total ≡ true
    → Reaches levels exp_total (give_stats s ent) (level + 1) true r
    → Reaches levels exp_total s level up r
rises levels exp_total s level up ent out_of_fuel e enough h = h
rises levels exp_total s level up ent past_table e enough h = h
rises levels exp_total s level up ent (raised s' level' up') e enough
      (n, (e1, le, e2, all, last), ups) =
    let next : suc (level + 1) ≡ level + 1 + 1 = omega arith in
    let step : next_levels levels level (suc n) ≡ ent ∷ next_levels levels (level + 1) n =
      ap (take (suc n)) (drop-get_elem? levels (level + 1) ent e)
      ∙ ap (λ k. ent ∷ take n (drop k levels)) next in
    (suc n, (omega arith, le, rw step e2, rw step (ground arith, all), last), inr (either ups))
  where
    either : ((n ≡ 0) × (up' ≡ true)) ⊎ (up' ≡ true) → up' ≡ true
    either (inl (_, e')) = e'
    either (inr e') = e'

level_up-Reaches :
    (levels : List LevelEntry) (exp_total : ℕ) (s : Stats) (level : ℕ) (up : Bool)
    (again : Stats → ℕ → Raised) (ent : LevelEntry)
    → level < 199
    → 200 ≤ length levels
    → get_elem? levels (level + 1) ≡ some ent
    → ((s' : Stats)
        → level + 1 < 199
        → Reaches levels exp_total s' (level + 1) true (again s' (level + 1)))
    → Reaches levels exp_total s level up (level_up exp_total s level up again (some ent))
unfolding level_up
level_up-Reaches levels exp_total s level up again ent lt len e ih =
    elim (Bool-cases (leb ent.exp exp_total)) [
      | inr more ↦ rw more (stays levels exp_total s level up ent (omega arith) e more)
      | inl enough ↦ rw enough (elim (Bool-cases (ltb (level + 1) 199)) [
        | inl below ↦ rw below (
            rises levels exp_total s level up ent (again (give_stats s ent) (level + 1)) e enough
              (ih (give_stats s ent) (ground arith)))
        | inr top ↦ rw top (
            rises levels exp_total s level up ent (raised (give_stats s ent) (level + 1) true) e
              enough (0, (omega arith, ground arith, refl, tt, inl (ground arith)), inr refl))
      ])
    ]

level_ups-Reaches :
    (fuel : ℕ) (levels : List LevelEntry) (exp_total : ℕ) (s : Stats) (level : ℕ) (up : Bool)
    → level < 199
    → 200 ≤ length levels
    → 199 ≤ level + fuel
    → Reaches levels exp_total s level up (level_ups fuel levels exp_total s level up)
unfolding level_ups
level_ups-Reaches zero levels exp_total s level up lt len enough = absurd (omega arith)
level_ups-Reaches (suc fuel) levels exp_total s level up lt len enough =
    let (ent, e) = get_elem?-some levels (level + 1) (omega arith) in
    let again : Stats → ℕ → Raised = λ s' level'. level_ups fuel levels exp_total s' level' true in
    rw e (
      level_up-Reaches levels exp_total s level up again ent lt len e (λ s' lt'.
        level_ups-Reaches fuel levels exp_total s' (level + 1) true lt' len (omega arith)))

-- What `client_give_exp` leaves: the experience and as many levels as it allows, nothing else.
abbrev pub IsRaised : List LevelEntry → Hero → ℕ → Given → Type 0
IsRaised levels p exp_total no_fuel = ⊥
IsRaised levels p exp_total overrun = ⊥
IsRaised levels p exp_total (given code p' told) =
    (n : ℕ) × RisesBy levels exp_total p.stats p.level p'.stats p'.level n
    × (p' ≡ record p { exp = exp_total; stats = p'.stats; level = p'.level })

module _ (fails : Note → Bool) where
  announce-IsRaised :
      (levels : List LevelEntry) (p : Hero) (exp_total : ℕ) (told : List Note) (r : Raised)
      → Reaches levels exp_total p.stats p.level false r
      → IsRaised levels p exp_total (announce fails (record p { exp = exp_total }) told r)
  unfolding announce
  announce-IsRaised levels p exp_total told out_of_fuel h = h
  announce-IsRaised levels p exp_total told past_table h = h
  announce-IsRaised levels p exp_total told (raised s level true) (n, r, ups) = (n, r, refl)
  announce-IsRaised levels p exp_total told (raised s level false) (n, r, inr e) = absurd cc
  announce-IsRaised levels p exp_total told (raised s level false)
        (n, (e1, le, e2, all, last), inl (e, _)) =
      let same : level ≡ p.level = omega arith in
      (n, (omega arith, omega arith, e2, all, rw (← same) last), refl)

  -- When a Blue Burst client below level 200 (counted from 0, below 199) is given experience, the
  -- message can be sent and the table has its 200 entries, the loop ends without reading past the
  -- table, and the character has the sum of experience (in 32 bits), the last level up to 199 such
  -- that the entries of all levels gained ask for no more than that, and the statistics of exactly
  -- those entries added in order; nothing else of it changes.
  pub client_give_exp-IsRaised :
      (levels : List LevelEntry) (p : Hero) (exp : ℕ)
      → p.version ≡ bb
      → p.has_data ≡ true
      → p.level < 199
      → 200 ≤ length levels
      → fails (gained_exp exp) ≡ false
      → IsRaised levels p ((p.exp + exp) % u32) (client_give_exp fails levels p exp)
  unfolding client_give_exp
  client_give_exp-IsRaised levels p exp version present lt len sent =
      let exp_total = (p.exp + exp) % u32 in
      let low : leb 199 p.level ≡ false = ground arith in
      let r = level_ups 200 levels exp_total p.stats p.level false in
      let is_bb : (not (p.version == bb) || not p.has_data) ≡ false =
        rw version (rw present refl) in
      rw is_bb (
        rw low (
          rw sent (
            announce-IsRaised levels p exp_total (gained_exp exp ∷ []) r
              (level_ups-Reaches 200 levels exp_total p.stats p.level false lt len (omega arith)))))
