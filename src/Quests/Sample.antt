-- ===== src/Quests/Sample.antt =====
-- The data of the examples: a team of two, and a server whose shipgate answers.
use ship_server.Base.{ℕ, false, [], ◌∷◌, none, some, replicate}
use ship_server.Quests.Functions.{Member, Team, fails, invalid_func}
use ship_server.Quests.Calls.{Env}

abbrev member : ℕ → ℕ → Member
member section level = record {
  section = section;
  ch_class = 4;
  level = level;
  cur_area = 2;
  x = 10;
  y = 0;
  z = 30;
}

abbrev pub team : Team
team = record {
  clients = some (member 7 11) ∷ none ∷ some (member 3 199) ∷ none ∷ [];
  num_clients = 2;
  rand_seed = 42;
  qpos_regs = replicate 4 (0 ∷ 0 ∷ 0 ∷ 0 ∷ []);
  qcount_reg = 0 ∷ 0 ∷ 0 ∷ 0 ∷ [];
}

abbrev pub server : Env
server = record {
  now = 1000;
  rnd = 77;
  me = 0;
  ship_clients = 20;
  block_clients = 5;
  name = 65 ∷ 66 ∷ [];
  refuses = λ r. false;
  censor = λ str. 0;
  script = λ t s. fails invalid_func t;
}
