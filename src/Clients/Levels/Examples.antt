-- ===== src/Clients/Levels/Examples.antt =====
-- Runs of the level functions, and the theorems on them at a table where each level asks for ten
-- points of experience more.
use ship_server.Base.{ℕ, zero, suc, ◌*◌, ◌≡◌, refl, Bool, true, false, List, [], ◌∷◌, pos, arith}
use ship_server.Lobby.{bb}
use ship_server.Clients.Levels.{
  LevelEntry, Stats, Hero, Note, gained_exp, new_level, given, give_stats, level_up, level_ups,
  announce, client_give_exp, client_give_level,
}
use ship_server.Clients.Levels.Ups.{client_give_exp-IsRaised, IsRaised}
use ship_server.Clients.Levels.Gifts.{client_give_level-OnlyLevel, OnlyLevel}

abbrev entry : ℕ → LevelEntry
entry i = record { atp = 2; mst = 1; evp = 1; hp = 3; dfp = 1; ata = 1; exp = 10 * i }

abbrev entries_from : ℕ → ℕ → List LevelEntry
entries_from zero i = []
entries_from (suc n) i = entry i ∷ entries_from n (suc i)

abbrev table : List LevelEntry
table = entries_from 200 0

abbrev beginner : Stats
beginner = record { atp = 30; mst = 10; evp = 30; hp = 50; dfp = 10; ata = 40 }

abbrev hero : ℕ → Hero
hero version = record { version = version; has_data = true; stats = beginner; exp = 3; level = 0 }

abbrev sends : Note → Bool
sends note = false

two_levels :
    client_give_exp sends table (hero bb) 20
    ≡ given
        (pos 0)
        (record (hero bb) {
          stats = record { atp = 34; mst = 12; evp = 32; hp = 56; dfp = 12; ata = 42 };
          exp = 23;
          level = 2;
        })
        (gained_exp 20
          ∷ new_level (record { atp = 34; mst = 12; evp = 32; hp = 56; dfp = 12; ata = 42 }) 2
          ∷ [])
unfolding client_give_exp announce level_ups level_up give_stats
two_levels = refl

client_give_exp-IsRaised_example :
    IsRaised table (hero bb) 23 (client_give_exp sends table (hero bb) 20)
client_give_exp-IsRaised_example =
    client_give_exp-IsRaised sends table (hero bb) 20 refl refl (omega arith) (omega arith) refl

client_give_level-OnlyLevel_example :
    OnlyLevel (hero bb) 7 (client_give_level sends table (hero bb) 7)
client_give_level-OnlyLevel_example =
    client_give_level-OnlyLevel sends table (hero bb) 7 (omega arith)
