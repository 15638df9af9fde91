-- ===== src/Clients/Levels.antt =====
-- src/clients.c: experience and levels. The table of a class is a list of its 200 entries; reading
-- past it is a result of its own.
pub mod Ups
pub mod Gifts
mod Examples
use ship_server.Base.{
  ℕ, zero, suc, ◌+◌, ◌-◌, ◌*◌, ◌/◌, ◌%◌, Bool, true, false, not, ◌&&◌, ◌||◌, List, [], ◌∷◌, ◌++◌,
  Option, none, some, get_elem?, ltb, leb, ◌==◌, if◌then◌else◌, ℤ, pos, neg, u16, u32,
}
use ship_server.Lobby.{bb, dcv2, pc}

-- `level_entry_t`
pub record LevelEntry : Type 0 where
  pub atp : ℕ
  pub mst : ℕ
  pub evp : ℕ
  pub hp : ℕ
  pub dfp : ℕ
  pub ata : ℕ
  pub exp : ℕ

-- The statistics of a character.
pub record Stats : Type 0 where
  pub atp : ℕ
  pub mst : ℕ
  pub evp : ℕ
  pub hp : ℕ
  pub dfp : ℕ
  pub ata : ℕ

-- The character of a client: `c->bb_pl->character` for Blue Burst, `c->pl->v1` before; `has_data`
-- says that the pointer is not NULL.
pub record Hero : Type 0 where
  pub version : ℕ
  pub has_data : Bool
  pub stats : Stats
  pub exp : ℕ
  pub level : ℕ

pub data Note : Type 0 where
  gained_exp : ℕ → Note
  new_level : Stats → ℕ → Note
  rejoins : Note

-- `overrun` is a read past the table; otherwise the code, the character and what was sent.
pub data Given : Type 0 where
  no_fuel : Given
  overrun : Given
  given : ℤ → Hero → List Note → Given

pub give_stats : Stats → LevelEntry → Stats
give_stats s ent = record {
  atp = (s.atp + ent.atp) % u16;
  mst = (s.mst + ent.mst) % u16;
  evp = (s.evp + ent.evp) % u16;
  hp = (s.hp + ent.hp) % u16;
  dfp = (s.dfp + ent.dfp) % u16;
  ata = (s.ata + ent.ata) % u16;
}

-- The statistics, the level, and whether it rose; `out_of_fuel` and `past_table` are the loop's
-- failures.
pub data Raised : Type 0 where
  out_of_fuel : Raised
  past_table : Raised
  raised : Stats → ℕ → Bool → Raised

-- One round of the loop of `client_give_exp`, from the entry of the next level; `again` is the
-- rest of the loop.
pub level_up : ℕ → Stats → ℕ → Bool → (Stats → ℕ → Raised) → Option LevelEntry → Raised
level_up exp_total s level up again none = past_table
level_up exp_total s level up again (some ent) =
    let s' = give_stats s ent in
    if not (leb ent.exp exp_total)
    then raised s level up
    else if ltb (level + 1) 199
    then again s' (level + 1)
    else raised s' (level + 1) true

pub level_ups : ℕ → List LevelEntry → ℕ → Stats → ℕ → Bool → Raised
level_ups zero levels exp_total s level up = out_of_fuel
level_ups (suc fuel) levels exp_total s level up =
    level_up exp_total s level up (λ s' level'. level_ups fuel levels exp_total s' level' true)
      (get_elem? levels (level + 1))

-- `fails` says which messages cannot be sent.
module _ (fails : Note → Bool) where
  -- What follows the loop.
  pub announce : Hero → List Note → Raised → Given
  announce p told out_of_fuel = no_fuel
  announce p told past_table = overrun
  announce p told (raised s level false) = given (pos 0) (record p { stats = s }) told
  announce p told (raised s level true) =
      let note = new_level s level in
      given (if fails note then neg 1 else pos 0) (record p { stats = s; level = level })
        (told ++ (note ∷ []))

  pub client_give_exp : List LevelEntry → Hero → ℕ → Given
  client_give_exp levels p exp =
      let exp_total = (p.exp + exp) % u32 in
      let p' = record p { exp = exp_total } in
      let told = gained_exp exp ∷ [] in
      if not (p.version == bb) || not p.has_data
      then given (neg 1) p []
      else if leb 199 p.level
      then given (pos 0) p []
      else if fails (gained_exp exp)
      then given (neg 1) p' told
      else announce p' told (level_ups 200 levels exp_total p.stats p.level false)

  pub give_level_entry : Hero → ℕ → Option LevelEntry → Given
  give_level_entry p level_req none = overrun
  give_level_entry p level_req (some ent) =
      let gain = gained_exp ((ent.exp + u32 - p.exp) % u32) in
      let p1 = record p { exp = ent.exp } in
      let p2 = record p1 { level = level_req } in
      let note = new_level p.stats level_req in
      if fails gain
      then given (neg 1) p1 (gain ∷ [])
      else given (if fails note then neg 1 else pos 0) p2 (gain ∷ note ∷ [])

  pub client_give_level : List LevelEntry → Hero → ℕ → Given
  client_give_level levels p level_req =
      if not (p.version == bb) || not p.has_data || ltb 199 level_req
      then given (neg 1) p []
      else if leb level_req p.level
      then given (pos 0) p []
      else give_level_entry p level_req (get_elem? levels level_req)

pub give_stats_v2 : Hero → LevelEntry → Hero
give_stats_v2 p ent = record p { stats = give_stats p.stats ent; exp = ent.exp }

-- One round of the loop of `client_give_level_v2`.
pub level_v2 : Hero → (Hero → Option Hero) → Option LevelEntry → Option Hero
level_v2 p again none = none
level_v2 p again (some ent) = again (give_stats_v2 p ent)

-- The loop over `n` levels from `i` on.
pub levels_v2 : ℕ → ℕ → List LevelEntry → Hero → Option Hero
levels_v2 zero i levels p = some p
levels_v2 (suc n) i levels p = level_v2 p (levels_v2 n (i + 1) levels) (get_elem? levels i)

pub finish_v2 : ℕ → Option Hero → Given
finish_v2 level_req none = overrun
finish_v2 level_req (some p) = given (pos 0) (record p { level = level_req }) (rejoins ∷ [])

pub client_give_level_v2 : List LevelEntry → Hero → ℕ → Given
client_give_level_v2 levels p level_req =
    if not (p.version == dcv2) && not (p.version == pc)
    then given (neg 1) p []
    else if not p.has_data || ltb 199 level_req
    then given (neg 1) p []
    else if leb level_req p.level
    then given (pos 0) p []
    else finish_v2 level_req (levels_v2 (level_req - p.level) (p.level + 1) levels p)
