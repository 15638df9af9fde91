-- ===== src/Items/Bank.antt =====
-- src/items.c: the bank of a Blue Burst character, `item_deposit_to_bank`, `item_take_from_bank`
-- and `cleanup_bb_bank`. A function that writes the bank returns it; words are as the host reads
-- them, on a little-endian host.
pub mod Units
pub mod Deposits
pub mod Ids
mod Examples
use Prim.Native.Nat.{bit_or}
use ship_server.Base.{
  ℕ, zero, suc, ◌+◌, ◌-◌, ◌*◌, ◌%◌, ◌^◌, Bool, List, [], ◌∷◌, ltb, ◌==◌, if◌then◌else◌, ℤ, pos, neg,
  u32, u32_max, byte1, set_byte1, get_or, set, find_index, close_gap,
}
use ship_server.Items.{item_is_stackable}

-- `sylverant_bitem_t`, its union as in `Item`.
pub record BankItem : Type 0 where
  pub data_l0 : ℕ
  pub data_l1 : ℕ
  pub data_l2 : ℕ
  pub item_id : ℕ
  pub data2_l : ℕ
  pub amount : ℕ
  pub flags : ℕ

-- `c->bb_pl->bank`
pub record Bank : Type 0 where
  pub item_count : ℕ
  pub meseta : ℕ
  pub items : List BankItem

abbrev pub zero_item : BankItem
zero_item = record {
  data_l0 = 0;
  data_l1 = 0;
  data_l2 = 0;
  item_id = 0;
  data2_l = 0;
  amount = 0;
  flags = 0;
}

-- `data_b[5]`
abbrev pub stack_of : BankItem → ℕ
stack_of it = byte1 it.data_l1

-- The write of `data_b[5]` and of `amount`, which is read back from it.
abbrev pub with_stack : BankItem → ℕ → BankItem
with_stack it v = record it { data_l1 = set_byte1 it.data_l1 v; amount = v % 256 }

-- The identifiers that `cleanup_bb_bank` gives from here on, then the cleared entries.
pub renumber : ℕ → ℕ → List BankItem → List BankItem
renumber count id [] = []
renumber zero id (x ∷ xs) = record zero_item { item_id = u32_max } ∷ renumber zero id xs
renumber (suc n) id (x ∷ xs) = record x { item_id = id } ∷ renumber n ((id + 1) % u32) xs

abbrev pub first_id : ℕ → ℕ
first_id client_id = bit_or 0x80010000 (client_id * 2 ^ 21 % u32)

pub cleanup_bb_bank : ℕ → Bank → Bank
unfolding renumber
cleanup_bb_bank client_id b = record b {
  items = renumber b.item_count (first_id client_id) b.items;
}

pub append_item : Bank → BankItem → ℤ × Bank
append_item b it =
    (pos 1, record b { items = set b.items b.item_count it; item_count = b.item_count + 1 })

pub deposit_stack : Bank → BankItem → ℕ → ℤ × Bank
unfolding append_item
deposit_stack b it i =
    if ltb i b.item_count
    then (let other = get_or b.items i zero_item in
        (
          pos 0,
          record b { items = set b.items i (with_stack other (stack_of other + stack_of it)) },
        ))
    else append_item b it

unfoldable pub item_deposit_to_bank : Bank → BankItem → ℤ × Bank
unfolding deposit_stack append_item
item_deposit_to_bank b it =
    if b.item_count == 200
    then (neg 1, b)
    else if item_is_stackable it.data_l0
    then deposit_stack b it (find_index (λ o. o.data_l0 == it.data_l0) b.item_count b.items)
    else append_item b it

take_entry : Bank → ℕ → BankItem → ℤ × BankItem × Bank
take_entry b i it = (
  pos 1,
  it,
  record b { items = close_gap i (b.item_count - i - 1) b.items; item_count = b.item_count - 1 },
)

take_stack : Bank → ℕ → BankItem → ℕ → ℤ × BankItem × Bank
unfolding take_entry
take_stack b i it amt =
    if ltb amt (stack_of it)
    then (
      pos 0,
      with_stack it amt,
      record b { items = set b.items i (with_stack it (stack_of it - amt)) },
    )
    else if ltb (stack_of it) amt
    then (neg 1, it, b)
    else take_entry b i it

-- The second part of the result is what `rv` then holds.
pub item_take_from_bank : Bank → ℕ → ℕ → BankItem → ℤ × BankItem × Bank
unfolding take_stack take_entry
item_take_from_bank b item_id amt rv =
    let i = find_index (λ o. o.item_id == item_id) b.item_count b.items in
    let it = get_or b.items i zero_item in
    if i == b.item_count
    then (neg 1, rv, b)
    else if item_is_stackable it.data_l0
    then take_stack b i it amt
    else take_entry b i it
