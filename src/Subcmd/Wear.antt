-- ===== src/Subcmd/Wear.antt =====
-- src/subcmd.c: the Blue Burst handlers that put items on and off, sort the inventory and use the
-- medical center, `handle_bb_equip`, `handle_bb_unequip`, `handle_bb_sort_inv` and
-- `handle_bb_medic`.
pub mod Sort
pub mod Flags
mod Examples
use ship_server.Base.{
  ℕ, zero, suc, ◌+◌, ◌-◌, ◌%◌, Bool, true, false, ◌&&◌, ◌||◌, not, List, [], ◌∷◌, ◌++◌, Option,
  none, some, length, replicate, ltb, leb, ◌==◌, if◌then◌else◌, ℤ, pos, neg, u32, u32_max, has_flag,
  set_flag, clear_flag, get_or, set, find_index,
}
use ship_server.Items.{Item, no_item, has_id}
use ship_server.Lobby.{type_lobby}
use ship_server.Subcmd.{ItemTypes, Player, is_kind, unequip_units}

-- A client: `pl_items` and `pl_count` are the copy of the inventory in `c->pl->bb`.
pub record Bag : Type 0 where
  pub lobby_type : ℕ
  pub client_id : ℕ
  pub player : Player
  pub pl_items : List Item
  pub pl_count : ℕ

-- `subcmd_bb_equip_t`, and what `handle_bb_medic` reads of its packet.
pub record WearPacket : Type 0 where
  pub pkt_len : ℕ
  pub size : ℕ
  pub client_id : ℕ
  pub item_id : ℕ

-- `subcmd_bb_sort_inv_t`
pub record SortPacket : Type 0 where
  pub pkt_len : ℕ
  pub size : ℕ
  pub item_ids : List ℕ

-- Where the id stands among the entries in use.
abbrev pub place_of : Player → ℕ → ℕ
place_of p id = find_index (has_id id) p.item_count p.items

abbrev with_items : Bag → List Item → Bag
with_items b items = record b { player = record b.player { items = items } }

-- The guards that `handle_bb_equip` and `handle_bb_unequip` share.
abbrev pub refuses : Bag → WearPacket → Bool
refuses b pkt =
    b.lobby_type == type_lobby
    || not (pkt.pkt_len == 0x14 && pkt.size == 0x03 && pkt.client_id == b.client_id)

-- `sent` is what sending the packet on answers.
pub handle_bb_equip : ℤ → Bag → WearPacket → ℤ × Bag
handle_bb_equip sent b pkt =
    let p = b.player in
    let i = place_of p pkt.item_id in
    let it = get_or p.items i no_item in
    if refuses b pkt
    then (neg 1, b)
    else if i == p.item_count
    then (neg 1, b)
    else (sent, with_items b (set p.items i (record it { flags = set_flag it.flags 8 })))

pub handle_bb_unequip : ItemTypes → ℤ → Bag → WearPacket → ℤ × Bag
handle_bb_unequip types sent b pkt =
    let p = b.player in
    let i = place_of p pkt.item_id in
    let it = get_or p.items i no_item in
    let items = set p.items i (record it { flags = clear_flag it.flags 8 }) in
    if refuses b pkt then (neg 1, b) else if i == p.item_count then (neg 1, b) else (
      sent,
      with_items b (
          if is_kind types.guard types.frame it
          then unequip_units types p.item_count items
          else items),
    )

-- Ten meseta are taken off in 32 bits.
pub handle_bb_medic : ℤ → Bag → WearPacket → ℤ × Bag
handle_bb_medic sent b pkt =
    let p = b.player in
    if b.lobby_type == type_lobby
    then (neg 1, b)
    else if not (pkt.pkt_len == 0x0C && pkt.size == 0x01 && pkt.client_id == b.client_id)
    then (neg 1, b)
    else (
      sent,
      record b {
        player = record p {
          meseta = (p.meseta + u32 - 10) % u32;
          meseta_copy = (p.meseta_copy + u32 - 10) % u32;
        };
      },
    )

-- An entry before the rest of the list.
pub cons_item : Item → Option (List Item) → Option (List Item)
cons_item it none = none
cons_item it (some xs) = some (it ∷ xs)

-- The loop over the ids of the packet: the entries in the order asked for, or `none` for an id that
-- is not there or that stands for an entry used before.
pub sorted : List Item → ℕ → List Bool → List ℕ → Option (List Item)
sorted items n used [] = some []
sorted items n used (id ∷ ids) =
    let j = find_index (has_id id) n items in
    let rest = sorted items n (set used j true) ids in
    if id == u32_max
    then some []
    else if j == n
    then none
    else if get_or used j false
    then none
    else cons_item (get_or items j no_item) rest

-- The tail of the array is that of an uninitialised inventory, `junk`.
pub sort_done : List Item → Bag → Option (List Item) → ℤ × Bag
sort_done junk b none = (neg 1, b)
sort_done junk b (some xs) =
    let items = xs ++ junk in
    if not (length xs == b.player.item_count) then (neg 1, b) else (
      pos 0,
      record b {
        player = record b.player { items = items };
        pl_items = items;
        pl_count = b.player.item_count;
      },
    )

pub handle_bb_sort_inv : List Item → Bag → SortPacket → ℤ × Bag
handle_bb_sort_inv junk b pkt =
    let p = b.player in
    if b.lobby_type == type_lobby
    then (neg 1, b)
    else if not (pkt.pkt_len == 0x84) || not (pkt.size == 0x1F)
    then (neg 1, b)
    else sort_done junk b (sorted p.items p.item_count (replicate 30 false) pkt.item_ids)
