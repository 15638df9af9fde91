-- ===== src/Subcmd/Sample.antt =====
-- The data of the examples: a player with three Monomates and a Saber, and a bank with five
-- Monomates.
use ship_server.Base.{refl, ◌∷◌, replicate, take}
use ship_server.Items.{Item, no_item}
use ship_server.Items.Inventory.Spec.{holds_id}
use ship_server.Items.Inventory.Distinct.{Distinct}
use ship_server.Items.Bank.{zero_item}
use ship_server.Subcmd.{ItemTypes, Player}

abbrev pub types : ItemTypes
types = record { guard = 1; frame = 1; unit = 3 }

abbrev pub monomates : Item
monomates = record no_item { data_l0 = 3; data_l1 = 768; item_id = 7 }

abbrev pub saber : Item
saber = record no_item { data_l0 = 256; item_id = 8 }

abbrev pub player : Player
player = record {
  items = monomates ∷ saber ∷ replicate 28 no_item;
  item_count = 2;
  meseta = 500;
  meseta_copy = 500;
  bank = record {
    item_count = 1;
    meseta = 1000;
    items =
        record zero_item { data_l0 = 3; data_l1 = 1280; amount = 5; item_id = 1 }
        ∷ replicate 199 zero_item;
  };
}

pub items-Distinct : Distinct (take 2 player.items)
unfolding holds_id
items-Distinct = (refl, (refl, tt))
