-- ===== src/Subcmd/Floor.antt =====
-- src/subcmd.c: the Blue Burst handlers that drop items and meseta and pick them up,
-- `handle_bb_drop_item`, `handle_bb_drop_pos`, `handle_bb_drop_stack` and `handle_bb_pick_up`.
-- Coordinates are bit patterns; a variable that the code does not initialise is an argument.
pub mod Pick
pub mod Drop
mod Examples
use ship_server.Base.{
  ℕ, zero, suc, ◌+◌, ◌-◌, ◌%◌, Bool, true, false, ◌&&◌, ◌||◌, not, List, [], ◌∷◌, ◌++◌, Option,
  none, some, ltb, leb, ◌==◌, if◌then◌else◌, ℤ, pos, negsuc, neg, u8, u32, u32_max, clear_flag,
  get_or, set, find_index,
}
use ship_server.Items.{Item, no_item, with_amount, has_id}
use ship_server.Items.Inventory.{item_remove_from_inv, item_add_to_inv}
use ship_server.Lobby.{Lobby, type_lobby}
use ship_server.Lobby.Floor.{lobby_add_item2_locked, lobby_remove_item_locked}
use ship_server.Subcmd.{ItemTypes, Player, is_worn_frame, unequip_units}

-- A client in its lobby: `items` is `c->items`, `highest_item` the counters of `l->highest_item`,
-- `drop_*` what the last `handle_bb_drop_pos` recorded.
pub record Seat : Type 0 where
  pub client_id : ℕ
  pub player : Player
  pub items : List Item
  pub drop_area : ℕ
  pub drop_x : ℕ
  pub drop_z : ℕ
  pub drop_item : ℕ
  pub drop_amt : ℕ
  pub lobby : Lobby
  pub highest_item : List ℕ

-- `subcmd_bb_drop_item_t`, `subcmd_bb_drop_pos_t`, `subcmd_bb_destroy_item_t` and
-- `subcmd_bb_pick_up_t`, with the fields that the handlers read.
pub record FloorPacket : Type 0 where
  pub pkt_len : ℕ
  pub size : ℕ
  pub client_id : ℕ
  pub item_id : ℕ
  pub amount : ℕ
  pub area : ℕ
  pub x : ℕ
  pub z : ℕ

-- What is sent: the packet on to the lobby, a pile or item that lies on the floor, and an item that
-- was picked up and is to vanish from the floor.
pub data Sent : Type 0 where
  forwarded : FloorPacket → Sent
  lies : ℕ → ℕ → ℕ → Item → Sent
  taken_up : Item → Sent
  vanishes : ℕ → ℕ → Sent

pub record Done : Type 0 where
  pub rv : ℤ
  pub seat : Seat
  pub sent : List Sent

abbrev fail : Seat → Done
fail s = record { rv = neg 1; seat = s; sent = [] }

-- Item_Meseta
abbrev pub item_meseta : ℕ
item_meseta = 4

abbrev pub is_good : ℕ → ℕ → Seat → FloorPacket → Bool
is_good len size s pkt = pkt.pkt_len == len && pkt.size == size && pkt.client_id == s.client_id

abbrev put_items : Seat → List Item → ℕ → Seat
put_items s items n = record s { player = record s.player { items = items; item_count = n } }

-- `send` says what sending answers, `alloc` whether an allocation succeeds.
module _ (send : Sent → ℤ) (alloc : Bool) where
  pub finish : Seat → FloorPacket → List Sent → Done
  finish s pkt sent = record {
    rv = send (forwarded pkt);
    seat = s;
    sent = sent ++ (forwarded pkt ∷ []);
  }

  -- After the item was taken out of the inventory.
  drop_removed : Seat → FloorPacket → ℤ × List Item → Done
  drop_removed s pkt (negsuc _, items) = fail (put_items s items s.player.item_count)
  drop_removed s pkt (pos zero, items) = fail (put_items s items s.player.item_count)
  drop_removed s pkt (pos (suc n), items) =
      finish (put_items s items (s.player.item_count - 1)) pkt []

  -- After the item was put on the floor.
  drop_laid : Seat → FloorPacket → Option Item × Lobby → Done
  drop_laid s pkt (none, l) = fail (record s { lobby = l })
  drop_laid s pkt (some it, l) =
      drop_removed (record s { lobby = l }) pkt
        (item_remove_from_inv s.player.items s.player.item_count pkt.item_id u32_max)

  -- `isframe` is what the variable holds when no worn frame sets it.
  handle_bb_drop_item : ItemTypes → Bool → Seat → FloorPacket → Done
  handle_bb_drop_item types isframe s pkt =
      let p = s.player in
      let inv = p.item_count in
      let found = find_index (has_id pkt.item_id) inv p.items in
      let it = get_or p.items found no_item in
      let cleared = set p.items found (record it { flags = clear_flag it.flags 8 }) in
      let items =
        (if is_worn_frame types it || isframe then unequip_units types inv cleared else cleared) in
      if s.lobby.type == type_lobby
      then fail s
      else if not (is_good 0x20 0x06 s pkt)
      then fail s
      else if found == inv
      then fail s
      else drop_laid (put_items s items inv) pkt
          (lobby_add_item2_locked alloc s.lobby (get_or items found no_item))

  handle_bb_drop_pos : Seat → FloorPacket → Done
  handle_bb_drop_pos s pkt =
      let p = s.player in
      let s' = record s {
        drop_area = pkt.area;
        drop_x = pkt.x;
        drop_z = pkt.z;
        drop_item = pkt.item_id;
        drop_amt = pkt.amount;
      } in
      if s.lobby.type == type_lobby
      then fail s
      else if not (is_good 0x20 0x06 s pkt)
      then fail s
      else if not (pkt.item_id == u32_max)
          && find_index (has_id pkt.item_id) p.item_count p.items == p.item_count
      then fail s
      else if pkt.item_id == u32_max && ltb p.meseta pkt.amount
      then fail s
      else finish s' pkt []

  -- After part of a stack was taken out of the inventory.
  stack_removed : Seat → FloorPacket → Item → ℤ × List Item → Done
  stack_removed s pkt it (negsuc _, items) = fail (put_items s items s.player.item_count)
  stack_removed s pkt it (pos n, items) =
      finish (put_items s items (s.player.item_count - n)) pkt
        (lies s.drop_area s.drop_x s.drop_z it ∷ [])

  pub meseta_removed : Seat → FloorPacket → Item → Done
  meseta_removed s pkt it =
      let left = s.player.meseta - pkt.amount in
      if ltb s.player.meseta pkt.amount
      then fail s
      else finish (record s { player = record s.player { meseta = left; meseta_copy = left } }) pkt
          (lies s.drop_area s.drop_x s.drop_z it ∷ [])

  -- After the stack or the pile was put on the floor.
  pub stack_laid : Seat → FloorPacket → Option Item × Lobby → Done
  stack_laid s pkt (none, l) = fail (record s { lobby = l })
  stack_laid s pkt (some it, l) =
      let s' = record s { lobby = l } in
      if pkt.item_id == u32_max
      then meseta_removed s' pkt it
      else stack_removed s' pkt it
          (item_remove_from_inv s.player.items s.player.item_count pkt.item_id pkt.amount)

  -- What lies on the floor afterwards; `junk` is the uninitialised `item_data`.
  pub stack_item : Item → Seat → FloorPacket → ℕ → Item
  stack_item junk s pkt id =
      let found = find_index (has_id pkt.item_id) s.player.item_count s.player.items in
      if pkt.item_id == u32_max
      then record junk {
        data_l0 = item_meseta;
        data_l1 = 0;
        data_l2 = 0;
        data2_l = pkt.amount;
        item_id = id;
      }
      else record (with_amount (get_or s.items found no_item) (pkt.amount % u8)) { item_id = id }

  pub handle_bb_drop_stack : Item → Seat → FloorPacket → Done
  handle_bb_drop_stack junk s pkt =
      let p = s.player in
      let id = (get_or s.highest_item s.client_id 0 + 1) % u32 in
      let s' = record s { highest_item = set s.highest_item s.client_id id } in
      if s.lobby.type == type_lobby
      then fail s
      else if not (is_good 0x14 0x03 s pkt)
      then fail s
      else if not (pkt.item_id == u32_max)
          && find_index (has_id pkt.item_id) p.item_count p.items == p.item_count
      then fail s
      else if not (pkt.item_id == s.drop_item) || not (pkt.amount == s.drop_amt)
      then fail s'
      else stack_laid s' pkt (lobby_add_item2_locked alloc s'.lobby (stack_item junk s pkt id))

  -- After the item was added to the inventory or the meseta to the purse.
  pub announce : Seat → FloorPacket → Item → Done
  announce s pkt it = record {
    rv = send (vanishes pkt.area it.item_id);
    seat = s;
    sent = taken_up it ∷ vanishes pkt.area it.item_id ∷ [];
  }

  pub pick_added : Seat → FloorPacket → Item → ℤ × List Item → Done
  pick_added s pkt it (negsuc _, items) = fail (put_items s items s.player.item_count)
  pick_added s pkt it (pos n, items) = announce (put_items s items (s.player.item_count + n)) pkt it

  pub purse : ℕ → ℕ → ℕ
  purse pile meseta = let tmp = (pile + meseta) % u32 in if ltb 999999 tmp then 999999 else tmp

  -- After the item was taken from the floor.
  pub pick_found : Seat → FloorPacket → ℤ × Item × Lobby → Done
  pick_found s pkt (negsuc _, it, l) = fail s
  pick_found s pkt (pos (suc _), it, l) = record { rv = pos 0; seat = s; sent = [] }
  pick_found s pkt (pos zero, it, l) =
      let s' = record s { lobby = l } in
      let p = s.player in
      let tmp = purse it.data2_l p.meseta in
      let it' = record it { flags = 0; equipped = 1; tech = 0 } in
      if it.data_l0 == item_meseta
      then announce (record s' { player = record p { meseta = tmp; meseta_copy = tmp } }) pkt it
      else pick_added s' pkt it' (item_add_to_inv p.items p.item_count it')

  pub handle_bb_pick_up : Item → Seat → FloorPacket → Done
  handle_bb_pick_up junk s pkt =
      if s.lobby.type == type_lobby
      then fail s
      else if not (is_good 0x14 0x03 s pkt)
      then fail s
      else pick_found s pkt (lobby_remove_item_locked s.lobby pkt.item_id junk)
