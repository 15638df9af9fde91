-- ===== src/Items.antt =====
-- Items of src/items.c: the item record, stacks, and the two containers of its children.
pub mod Inventory
pub mod Bank
use ship_server.Base.{
  ℕ, ◌+◌, ◌*◌, ◌/◌, ◌%◌, ◌≡◌, Bool, true, false, ◌&&◌, not, ltb, ◌==◌, if◌then◌else◌, byte1,
  set_byte1,
}

-- `item_t`: the union of `data_b`, `data_w` and `data_l` is kept as its three 32-bit words, so
-- `data_b[0]` is byte 0 of `data_l0` and `data_b[5]` is byte 1 of `data_l1`.
pub record Item : Type 0 where
  pub equipped : ℕ
  pub tech : ℕ
  pub flags : ℕ
  pub data_l0 : ℕ
  pub data_l1 : ℕ
  pub data_l2 : ℕ
  pub item_id : ℕ
  pub data2_l : ℕ

-- The zeroed item, which stands for a read out of range.
abbrev pub no_item : Item
no_item = record {
  equipped = 0;
  tech = 0;
  flags = 0;
  data_l0 = 0;
  data_l1 = 0;
  data_l2 = 0;
  item_id = 0;
  data2_l = 0;
}

-- `data_b[5]`, the size of a stack.
abbrev pub amount : Item → ℕ
amount it = byte1 it.data_l1

-- The write of `data_b[5]`.
abbrev pub with_amount : Item → ℕ → Item
with_amount it v = record it { data_l1 = set_byte1 it.data_l1 v }

unfoldable pub item_is_stackable : ℕ → Bool
item_is_stackable code =
    if code % 256 == 3
    then (let kind = (code / 256) % 256 in ltb kind 9 && not (kind == 2))
    else false

-- The tests of the search loops.
abbrev pub has_id : ℕ → Item → Bool
has_id id it = it.item_id == id

abbrev pub same_code : Item → Item → Bool
same_code it other = other.data_l0 == it.data_l0
