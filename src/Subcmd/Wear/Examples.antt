-- ===== src/Subcmd/Wear/Examples.antt =====
-- A client with a worn frame and a worn unit, and the theorems on its inventory.
use ship_server.Base.{
  ℕ, find_index, ◌≡◌, ◌≢◌, refl, List, [], ◌∷◌, ◌++◌, replicate, pos, neg, arith, u32_max,
}
use ship_server.Items.{Item, no_item}
use ship_server.Lobby.{type_game, type_lobby}
use ship_server.Subcmd.{unequip_units}
use ship_server.Subcmd.Sample.{types, saber, player}
use ship_server.Subcmd.Wear.{
  Bag, WearPacket, SortPacket, handle_bb_unequip, handle_bb_sort_inv, sorted, sort_done, cons_item,
}
use ship_server.Subcmd.Wear.Sort.{IsSorted, handle_bb_sort_inv-IsSorted}
use ship_server.Subcmd.Wear.Flags.{IsTakenOff, handle_bb_unequip-IsTakenOff}

abbrev frame : Item
frame = record no_item { data_l0 = 257; flags = 8; item_id = 5 }

abbrev unit : Item
unit = record no_item { data_l0 = 769; flags = 8; item_id = 6 }

abbrev dressed : Bag
dressed = record {
  lobby_type = type_game;
  client_id = 1;
  player = record player {
    items = frame ∷ unit ∷ saber ∷ replicate 27 no_item;
    item_count = 3;
    meseta = 4;
    meseta_copy = 4;
  };
  pl_items = [];
  pl_count = 0;
}

abbrev packet : ℕ → WearPacket
packet id = record { pkt_len = 0x14; size = 0x03; client_id = 1; item_id = id }

abbrev medic_packet : WearPacket
medic_packet = record { pkt_len = 0x0C; size = 0x01; client_id = 1; item_id = 0 }

abbrev sort_packet : List ℕ → SortPacket
sort_packet ids = record { pkt_len = 0x84; size = 0x1F; item_ids = ids ++ replicate 27 u32_max }

-- Taking the frame off takes the unit off.
undressed :
    (handle_bb_unequip types (pos 0) dressed (packet 5)).1.player.items
    ≡ record frame { flags = 0 } ∷ record unit { flags = 0 } ∷ saber ∷ replicate 27 no_item
unfolding handle_bb_unequip unequip_units find_index
undressed = refl

-- An order is followed, and an id that is listed twice is refused.
in_order :
    (handle_bb_sort_inv
      (replicate 27 no_item)
      dressed
      (sort_packet (8 ∷ 5 ∷ 6 ∷ []))).1.player.items
    ≡ saber ∷ frame ∷ unit ∷ replicate 27 no_item
unfolding handle_bb_sort_inv sorted sort_done cons_item find_index
in_order = refl

listed_twice : handle_bb_sort_inv [] dressed (sort_packet (8 ∷ 5 ∷ 8 ∷ [])) ≡ (neg 1, dressed)
unfolding handle_bb_sort_inv sorted sort_done cons_item find_index
listed_twice = refl

handle_bb_unequip-IsTakenOff_example :
    IsTakenOff types dressed (packet 5) (pos 0) (handle_bb_unequip types (pos 0) dressed (packet 5))
handle_bb_unequip-IsTakenOff_example =
    handle_bb_unequip-IsTakenOff types (pos 0) dressed (packet 5) (omega arith)

handle_bb_sort_inv-IsSorted_example :
    IsSorted dressed (handle_bb_sort_inv [] dressed (sort_packet (8 ∷ 5 ∷ 6 ∷ [])))
handle_bb_sort_inv-IsSorted_example =
    handle_bb_sort_inv-IsSorted [] dressed (sort_packet (8 ∷ 5 ∷ 6 ∷ [])) (omega arith) refl

game_type : dressed.lobby_type ≢ type_lobby
game_type = λ q. absurd (omega arith)
