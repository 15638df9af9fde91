-- ===== src/Items/Bank/Units.antt =====
-- The bank's invariant, and that its operations account for every unit of every item code.
use ship_server.Base.{
  ℕ, ◌+◌, ◌-◌, ◌≤◌, ◌<◌, ◌≡◌, true, arith, ◌==◌, if◌then◌else◌, ℤ, pos, negsuc, length, take,
  get_or, find_index, sum_by, sum_by-set, sum_by-close_gap, length-set, length-close_gap,
  find_index-le,
}
use ship_server.Items.{item_is_stackable}
use ship_server.Items.Bank.{
  BankItem, Bank, zero_item, stack_of, with_stack, item_deposit_to_bank, item_take_from_bank,
}

-- The array holds 200 entries, of which `item_count` are in use.
pub record IsValid (b : Bank) : Type 0 where
  pub size : length b.items ≡ 200
  pub within : b.item_count ≤ 200

-- A stack counts its amount, any other item counts one.
abbrev weight : BankItem → ℕ
weight x = if item_is_stackable x.data_l0 then stack_of x else 1

abbrev pub units_of : ℕ → BankItem → ℕ
units_of code x = if x.data_l0 == code then weight x else 0

-- The units of a code among the entries in use.
abbrev pub units : ℕ → Bank → ℕ
units code b = sum_by (units_of code) (take b.item_count b.items)

-- `item_deposit_to_bank` keeps the bank valid.
pub item_deposit_to_bank-IsValid :
    {b : Bank} (it : BankItem) → IsValid b → IsValid (item_deposit_to_bank b it).1
unfolding item_deposit_to_bank
item_deposit_to_bank-IsValid {b} it v =
    let i = find_index (λ o. o.data_l0 == it.data_l0) b.item_count b.items in
    let other = get_or b.items i zero_item in
    ground (
      arith,
      length-set b.items b.item_count it,
      length-set b.items i (with_stack other (stack_of other + stack_of it)),
    )

-- `item_take_from_bank` keeps the bank valid.
pub item_take_from_bank-IsValid :
    {b : Bank} (id amt : ℕ) (rv : BankItem)
    → IsValid b
    → IsValid (item_take_from_bank b id amt rv).2
unfolding item_take_from_bank
item_take_from_bank-IsValid {b} id amt rv v =
    let i = find_index (λ o. o.item_id == id) b.item_count b.items in
    let it = get_or b.items i zero_item in
    ground (
      arith,
      length-set b.items i (with_stack it (stack_of it - amt)),
      length-close_gap i (b.item_count - i - 1) b.items,
    )

pub item_deposit_to_bank-meseta :
    (b : Bank) (it : BankItem) → (item_deposit_to_bank b it).1.meseta ≡ b.meseta
unfolding item_deposit_to_bank
item_deposit_to_bank-meseta b it = ground arith

pub item_take_from_bank-meseta :
    (b : Bank) (id amt : ℕ) (rv : BankItem) → (item_take_from_bank b id amt rv).2.meseta ≡ b.meseta
unfolding item_take_from_bank
item_take_from_bank-meseta b id amt rv = ground arith

-- What a call of `item_take_from_bank` hands out: nothing if it fails.
abbrev pub handed : ℕ → ℤ → BankItem → ℕ
handed code (pos _) rv = units_of code rv
handed code (negsuc _) rv = 0

units-split :
    (code amt : ℕ) (x : BankItem)
    → item_is_stackable x.data_l0 ≡ true
    → amt < stack_of x
    → units_of code (with_stack x (stack_of x - amt)) + units_of code (with_stack x amt)
      ≡ units_of code x
units-split code amt x t h = ground arith

-- `item_take_from_bank` takes out of the bank's units of every code exactly those of the item
-- that it hands out, whole or part of a stack, and none when it fails.
pub item_take_from_bank-units :
    {b : Bank} (code id amt : ℕ) (rv : BankItem)
    → IsValid b
    → let (r, rv', b') = item_take_from_bank b id amt rv in
      units code b' + handed code r rv' ≡ units code b
unfolding item_take_from_bank
item_take_from_bank-units {b} code id amt rv v =
    let i = find_index (λ o. o.item_id == id) b.item_count b.items in
    let it = get_or b.items i zero_item in
    ground (
      arith,
      find_index-le (λ (o : BankItem). o.item_id == id) b.item_count b.items,
      units-split code amt it,
      sum_by-set (units_of code) b.item_count i b.items zero_item
          (with_stack it (stack_of it - amt)),
      sum_by-close_gap (units_of code) b.item_count i b.items zero_item,
    )
