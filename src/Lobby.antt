-- ===== src/Lobby.antt =====
-- src/lobby.h and src/clients.h: lobbies, clients and the block that holds them, as far as
-- src/lobby.c moves clients between lobbies. Pointers are numbers, NULL is `none`; locks are held
-- as the code holds them, so a call is one step. What the code sends is a list of messages.
pub mod Flag
pub mod Queue
pub mod Floor
pub mod Slots
pub mod Move
pub mod Legit
pub mod Send
pub mod Sample
use ship_server.Base.{
  ℕ, zero, suc, ◌+◌, ◌≡◌, Bool, true, false, ◌&&◌, List, [], ◌∷◌, ◌++◌, Option, none, some, ◌==◌,
  if◌then◌else◌,
}
use ship_server.Items.{Item}

-- The versions of a client or a lobby.
abbrev pub dcv1 : ℕ
dcv1 = 0

abbrev pub dcv2 : ℕ
dcv2 = 1

abbrev pub pc : ℕ
pc = 2

abbrev pub gc : ℕ
gc = 3

abbrev ep3 : ℕ
ep3 = 4

abbrev pub bb : ℕ
bb = 5

abbrev pub xbox : ℕ
xbox = 6

-- LOBBY_TYPE_*
abbrev pub type_lobby : ℕ
type_lobby = 1

abbrev pub type_game : ℕ
type_game = 2

-- A packet that waits while a player bursts: its sender, its type and its bytes.
pub record Packet : Type 0 where
  pub src : ℕ
  pub pkt_type : ℕ
  pub bytes : List ℕ

-- `lobby_t`
pub record Lobby : Type 0 where
  pub lobby_id : ℕ
  pub type : ℕ
  pub flags : ℕ
  pub item_id : ℕ
  pub max_clients : ℕ
  pub num_clients : ℕ
  pub version : ℕ
  pub leader_id : ℕ
  pub challenge : ℕ
  pub v2 : ℕ
  pub episode : ℕ
  pub max_chal : ℕ
  pub min_level : ℕ
  pub max_level : ℕ
  pub clients : List (Option ℕ)
  pub pkt_queue : List Packet
  pub item_queue : List Item
  pub burst_queue : List Packet
  pub q_flags : ℕ
  pub syncregs : List ℕ
  pub regvals : List ℕ
  pub qpos_regs : List (List ℕ)
  pub qcount_reg : List ℕ

-- `ship_client_t`; `level`, `ch_class`, `times` and `times_ep2` are those of the character data
-- that its version has.
pub record Client : Type 0 where
  pub version : ℕ
  pub flags : ℕ
  pub guildcard : ℕ
  pub client_id : ℕ
  pub arrow : ℕ
  pub join_time : ℕ
  pub lobby_id : ℕ
  pub cur_lobby : Option ℕ
  pub lobby_req : Option ℕ
  pub level : ℕ
  pub ch_class : ℕ
  pub times : List ℕ
  pub times_ep2 : List ℕ
  pub enemy_kills : List ℕ
  pub q_stack : List ℕ
  pub q_stack_top : ℕ
  pub p2_drops : List ℕ
  pub p2_drops_max : ℕ

-- What the code sends or hands to a script, in order.
pub data Msg : Type 0 where
  sync_register : Option ℕ → ℕ → ℕ → Msg
  team_join team_leave : ℕ → ℕ → Msg
  team_destroy : ℕ → Msg
  lobby_join game_join : ℕ → ℕ → Msg
  add_player : ℕ → ℕ → Msg
  lobby_leave : ℕ → ℕ → ℕ → Msg
  lobby_chg : ℕ → ℕ → Msg
  mkill : ℕ → ℕ → Msg
  handled : Packet → Msg
  resent : ℕ → Packet → Msg

-- The clients and the lobbies by pointer, the block's list of lobbies and its count of games.
pub record World : Type 0 where
  pub clients : ℕ → Client
  pub lobbies : ℕ → Lobby
  pub block_lobbies : List ℕ
  pub num_games : ℕ
  pub out : List Msg

abbrev pub put_client : World → ℕ → Client → World
put_client w c x = record w { clients = λ k. if k == c then x else w.clients k }

abbrev pub put_lobby : World → ℕ → Lobby → World
put_lobby w l x = record w { lobbies = λ k. if k == l then x else w.lobbies k }

abbrev pub send : World → Msg → World
send w m = record w { out = w.out ++ (m ∷ []) }

abbrev pub is_empty : Option ℕ → Bool
is_empty none = true
is_empty (some _) = false

-- `clients[k] == c`
abbrev pub holds : Option ℕ → ℕ → Bool
holds none c = false
holds (some d) c = d == c
