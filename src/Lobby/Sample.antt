-- ===== src/Lobby/Sample.antt =====
-- A client and a team, which the examples below this module vary.
use ship_server.Base.{ℕ, [], ◌∷◌, Option, none, some, replicate}
use ship_server.Lobby.{Lobby, Client, dcv2, type_game}
use ship_server.Lobby.Flag

abbrev pub client : ℕ → ℕ → Option ℕ → ℕ → ℕ → Client
client version gcn at slot joined = record {
  version = version;
  flags = 0;
  guildcard = gcn;
  client_id = slot;
  arrow = 0;
  join_time = joined;
  lobby_id = 1;
  cur_lobby = at;
  lobby_req = none;
  level = 20;
  ch_class = 1;
  times = replicate 9 0;
  times_ep2 = replicate 5 0;
  enemy_kills = [];
  q_stack = [];
  q_stack_top = 0;
  p2_drops = [];
  p2_drops_max = 0;
}

-- A version 2 team whose clients sit in slots 0, 1 and 3.
abbrev pub team : Lobby
team = record {
  lobby_id = 30;
  type = type_game;
  flags = Flag.gc_allowed;
  item_id = 0;
  max_clients = 4;
  num_clients = 3;
  version = dcv2;
  leader_id = 0;
  challenge = 0;
  v2 = 1;
  episode = 1;
  max_chal = 0;
  min_level = 1;
  max_level = 200;
  clients = some 10 ∷ some 11 ∷ none ∷ some 12 ∷ replicate 8 none;
  pkt_queue = [];
  item_queue = [];
  burst_queue = [];
  q_flags = 0;
  syncregs = [];
  regvals = [];
  qpos_regs = [];
  qcount_reg = [];
}
