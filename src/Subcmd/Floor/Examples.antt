-- ===== src/Subcmd/Floor/Examples.antt =====
-- The floor of a team: an item is picked up, a full inventory loses one, meseta is dropped.
use ship_server.Base.{
  ℕ, ◌≡◌, ◌≢◌, refl, true, [], ◌∷◌, ◌+◌, ◌%◌, min, replicate, ℤ, pos, arith, u32, u32_max,
}
use ship_server.Items.{no_item, item_is_stackable}
use ship_server.Items.Inventory.Valid.{IsValid}
use ship_server.Lobby.{Lobby, type_game, bb}
use ship_server.Lobby.Sample.{team}
use ship_server.Subcmd.Sample.{saber, player, items-Distinct}
use ship_server.Subcmd.Floor.{
  Seat, FloorPacket, Sent, item_meseta, handle_bb_pick_up, handle_bb_drop_stack,
}
use ship_server.Subcmd.Floor.Pick.{Accounts, handle_bb_pick_up-Accounts}
use ship_server.Subcmd.Floor.Drop.{
  IsGood, PilesUp, handle_bb_drop_stack-PilesUp, handle_bb_drop_stack-pick_up,
}

abbrev sent : Sent → ℤ
sent m = pos 0

-- A second Saber lies on the floor.
abbrev floor : Lobby
floor = record team {
  type = type_game;
  version = bb;
  item_queue = record saber { item_id = 9 } ∷ [];
}

abbrev seat : Seat
seat = record {
  client_id = 1;
  player = player;
  items = replicate 30 no_item;
  drop_area = 0;
  drop_x = 0;
  drop_z = 0;
  drop_item = u32_max;
  drop_amt = 600;
  lobby = floor;
  highest_item = replicate 12 100;
}

abbrev packet : ℕ → ℕ → FloorPacket
packet id amt = record {
  pkt_len = 0x14;
  size = 0x03;
  client_id = 1;
  item_id = id;
  amount = amt;
  area = 0;
  x = 0;
  z = 0;
}

seat-IsValid : IsValid 2 player.items
seat-IsValid = record { size = refl; within = omega arith; distinct = items-Distinct }

saber_code : 256 ≢ item_meseta
saber_code = λ q. absurd (omega arith)

handle_bb_pick_up-Accounts_example :
    Accounts 256 seat (handle_bb_pick_up sent true no_item seat (packet 9 0))
unfolding item_is_stackable
handle_bb_pick_up-Accounts_example =
    handle_bb_pick_up-Accounts sent true 256 no_item seat (packet 9 0) saber_code refl seat-IsValid
      (omega arith, tt)

in_team : IsGood 0x14 0x03 seat (packet u32_max 600)
in_team = ((λ q. absurd (omega arith)), refl, refl)

-- The player has 500 meseta, and 600 lie on the floor.
handle_bb_drop_stack-PilesUp_example :
    PilesUp sent no_item seat
      (packet u32_max 600)
      (handle_bb_drop_stack sent true no_item seat (packet u32_max 600))
handle_bb_drop_stack-PilesUp_example =
    handle_bb_drop_stack-PilesUp sent no_item seat (packet u32_max 600) in_team refl refl refl

abbrev dropped : Lobby
dropped = (handle_bb_drop_stack sent true no_item seat (packet u32_max 600)).seat.lobby

handle_bb_drop_stack-pick_up_example :
    let d = handle_bb_pick_up sent true no_item (record seat { lobby = dropped }) (packet 101 0) in
    (d.seat.player.meseta ≡ min 999999 ((600 + 500) % u32)) × (d.seat.lobby ≡ floor)
handle_bb_drop_stack-pick_up_example =
    handle_bb_drop_stack-pick_up sent no_item no_item seat (record seat { lobby = dropped })
      (packet u32_max 600) (packet 101 0) in_team refl refl refl refl refl refl
