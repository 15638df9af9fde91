-- ===== src/Subcmd.antt =====
-- src/subcmd.c: the Blue Burst handler `handle_bb_bank_action`. It runs with the lobby locked; a
-- packet is a record of its fields, what the senders answer is a function.
pub mod Meseta
pub mod Valid
pub mod Units
pub mod Deposits
pub mod Enemies
pub mod Floor
pub mod Wear
pub mod Sample
mod Examples
use ship_server.Base.{
  ℕ, zero, suc, ◌+◌, ◌-◌, ◌%◌, Bool, true, false, ◌&&◌, ◌||◌, not, List, [], ◌∷◌, ltb, ◌==◌,
  if◌then◌else◌, ℤ, pos, negsuc, neg, u32, u32_max, has_flag, clear_flag, byte0, byte1, get_or,
  find_index,
}
use ship_server.Items.{Item, no_item, with_amount, item_is_stackable, has_id}
use ship_server.Items.Inventory.{item_remove_from_inv, item_add_to_inv}
use ship_server.Items.Bank.{BankItem, Bank, zero_item, item_deposit_to_bank, item_take_from_bank}
use ship_server.Lobby.{Lobby, type_lobby}

-- ITEM_TYPE_GUARD, ITEM_SUBTYPE_FRAME and ITEM_SUBTYPE_UNIT of the library.
pub record ItemTypes : Type 0 where
  pub guard : ℕ
  pub frame : ℕ
  pub unit : ℕ

-- What the handlers change of a client: the inventory and the meseta of `c->bb_pl`, the copy of
-- the meseta in `c->pl`, and the bank.
pub record Player : Type 0 where
  pub items : List Item
  pub item_count : ℕ
  pub meseta : ℕ
  pub meseta_copy : ℕ
  pub bank : Bank

-- `subcmd_bb_bank_act_t`
pub record BankAct : Type 0 where
  pub pkt_len : ℕ
  pub size : ℕ
  pub item_id : ℕ
  pub meseta_amount : ℕ
  pub action : ℕ
  pub item_amount : ℕ

-- What the lobby is told.
pub data Told : Type 0 where
  destroy_item : ℕ → ℕ → Told
  picked_up : Item → Told

-- The return value, the client, the lobby, and what was told.
pub record Outcome : Type 0 where
  pub rv : ℤ
  pub player : Player
  pub lobby : Lobby
  pub told : List Told

abbrev pub quiet : ℤ → Player → Lobby → Outcome
quiet rv p l = record { rv = rv; player = p; lobby = l; told = [] }

-- SUBCMD_BANK_ACT_*
abbrev pub act_deposit : ℕ
act_deposit = 0

abbrev act_take : ℕ
act_take = 1

abbrev act_done : ℕ
act_done = 2

abbrev act_close : ℕ
act_close = 3

pub deposit_meseta : Player → Lobby → ℕ → Outcome
deposit_meseta p l amt =
    if ltb p.meseta amt
    then quiet (neg 1) p l
    else if ltb 999999 ((amt + p.bank.meseta) % u32)
    then quiet (neg 1) p l
    else quiet (pos 0)
        (record p {
          meseta = p.meseta - amt;
          meseta_copy = p.meseta - amt;
          bank = record p.bank { meseta = (p.bank.meseta + amt) % u32 };
        })
        l

pub take_meseta : Player → Lobby → ℕ → Outcome
take_meseta p l amt =
    if ltb 999999 ((amt + p.meseta) % u32)
    then quiet (neg 1) p l
    else if ltb p.bank.meseta amt
    then quiet (neg 1) p l
    else quiet (pos 0)
        (record p {
          meseta = (p.meseta + amt) % u32;
          meseta_copy = (p.meseta + amt) % u32;
          bank = record p.bank { meseta = p.bank.meseta - amt };
        })
        l

abbrev is_kind : ℕ → ℕ → Item → Bool
is_kind type subtype it = byte0 it.data_l0 == type && byte1 it.data_l0 == subtype

abbrev pub is_worn_frame : ItemTypes → Item → Bool
is_worn_frame types it = is_kind types.guard types.frame it && has_flag it.flags 8

-- The loop that takes the units off, over the entries in use.
pub unequip_units : ItemTypes → ℕ → List Item → List Item
unequip_units types n [] = []
unequip_units types zero (x ∷ xs) = x ∷ xs
unequip_units types (suc n) (x ∷ xs) =
    (if is_kind types.guard types.unit x then record x { flags = clear_flag x.flags 8 } else x)
    ∷ unequip_units types n xs

-- The bank's entry for an item of the inventory.
abbrev pub bank_entry : Item → ℕ → BankItem
bank_entry it amt =
    let stack = item_is_stackable it.data_l0 in
    let it' = if stack then with_amount it amt else it in
    record {
      data_l0 = it'.data_l0;
      data_l1 = it'.data_l1;
      data_l2 = it'.data_l2;
      item_id = it'.item_id;
      data2_l = it'.data2_l;
      amount = if stack then amt else 1;
      flags = 1;
    }

-- What follows the deposit, from its answer.
pub deposit_done : (Told → ℤ) → Player → Lobby → ℕ → ℕ → ℤ → Outcome
deposit_done send p l id amt (negsuc _) = quiet (neg 1) p l
deposit_done send p l id amt (pos _) = record {
  rv = send (destroy_item id amt);
  player = p;
  lobby = l;
  told = destroy_item id amt ∷ [];
}

-- What follows the removal from the inventory. The id that is told is `item`'s, which the loop over
-- the units overwrites with each entry in turn.
pub deposit_removed : (Told → ℤ) → ItemTypes → Player → Lobby → Item → ℕ → ℤ × List Item → Outcome
deposit_removed send types p l it amt (negsuc _, items) = quiet (neg 1) p l
deposit_removed send types p l it amt (pos n, items) =
    let left = p.item_count - n in
    let worn = is_worn_frame types it in
    let (code, bank) = item_deposit_to_bank p.bank (bank_entry it amt) in
    let p' = record p {
      items = if worn then unequip_units types left items else items;
      item_count = left;
      bank = bank;
    } in
    let id =
      (if worn && not (left == 0) then (get_or items (left - 1) no_item).item_id else it.item_id) in
    deposit_done send p' l id amt code

pub deposit_item : (Told → ℤ) → ItemTypes → Player → Lobby → BankAct → Outcome
deposit_item send types p l pkt =
    let i = find_index (has_id pkt.item_id) p.item_count p.items in
    let it = get_or p.items i no_item in
    if i == p.item_count
    then quiet (neg 1) p l
    else if not (item_is_stackable it.data_l0) && ltb 1 pkt.item_amount
    then quiet (neg 1) p l
    else deposit_removed send types p l it pkt.item_amount
        (item_remove_from_inv p.items p.item_count pkt.item_id pkt.item_amount)

-- The inventory's entry for an item of the bank.
abbrev inventory_entry : BankItem → ℕ → Item
inventory_entry b id = record {
  equipped = 1;
  tech = 0;
  flags = 0;
  data_l0 = b.data_l0;
  data_l1 = b.data_l1;
  data_l2 = b.data_l2;
  item_id = id;
  data2_l = b.data2_l;
}

-- What follows the insertion into the inventory, from its answer: the bank gets the entry back if
-- it failed.
pub take_done : (Told → ℤ) → Player → Lobby → BankItem → Bank → Item → ℤ × List Item → Outcome
take_done send p l b bank it (negsuc _, items) =
    quiet (neg 1) (record p { bank = (item_deposit_to_bank bank b).1 }) l
take_done send p l b bank it (pos n, items) = record {
  rv = send (picked_up it);
  player = record p { items = items; item_count = p.item_count + n; bank = bank };
  lobby = l;
  told = picked_up it ∷ [];
}

-- What follows the call that takes an entry out of the bank.
pub take_taken : (Told → ℤ) → Player → Lobby → ℤ × BankItem × Bank → Outcome
take_taken send p l (negsuc _, b, bank) = quiet (neg 1) p l
take_taken send p l (pos _, b, bank) =
    let it = inventory_entry b l.item_id in
    let l' = record l { item_id = (l.item_id + 1) % u32 } in
    take_done send p l' b bank it (item_add_to_inv p.items p.item_count it)

pub handle_bb_bank_action : (Told → ℤ) → ItemTypes → Player → Lobby → BankAct → Outcome
handle_bb_bank_action send types p l pkt =
    if l.type == type_lobby
    then quiet (neg 1) p l
    else if not (pkt.pkt_len == 0x18) || not (pkt.size == 0x04)
    then quiet (neg 1) p l
    else if pkt.action == act_close || pkt.action == act_done
    then quiet (pos 0) p l
    else if pkt.action == act_deposit
    then (if pkt.item_id == u32_max
        then deposit_meseta p l pkt.meseta_amount
        else deposit_item send types p l pkt)
    else if pkt.action == act_take
    then (if pkt.item_id == u32_max
        then take_meseta p l pkt.meseta_amount
        else take_taken send p l (item_take_from_bank p.bank pkt.item_id pkt.item_amount zero_item))
    else quiet (neg 1) p l
