-- ===== src/Items/Bank/Examples.antt =====
-- The bank's theorems at a bank that holds five Monomates and a Saber.
use ship_server.Base.{
  ◌≢◌, ◌<◌, true, ℕ, ◌+◌, ◌*◌, ◌≡◌, refl, ◌∷◌, pos, neg, arith, replicate, find_index, close_gap,
}
use ship_server.Items.{item_is_stackable}
use ship_server.Items.Bank.{BankItem, Bank, zero_item, item_deposit_to_bank, item_take_from_bank}
use ship_server.Items.Bank.Units.{IsValid, units, units_of, handed, item_take_from_bank-units}
use ship_server.Items.Bank.Deposits.{item_deposit_to_bank-units}

abbrev monomates : ℕ → ℕ → BankItem
monomates n id = record zero_item { data_l0 = 3; data_l1 = 256 * n; amount = n; item_id = id }

abbrev saber : ℕ → BankItem
saber id = record zero_item { data_l0 = 256; amount = 1; item_id = id }

abbrev held : Bank
held = record {
  item_count = 2;
  meseta = 100;
  items = monomates 5 7 ∷ saber 8 ∷ replicate 198 zero_item;
}

held-IsValid : IsValid held
held-IsValid = record { size = refl; within = omega arith }

-- Two Monomates come out, five stay three.
test-take : (item_take_from_bank held 7 2 zero_item).1 ≡ monomates 2 7
unfolding item_take_from_bank find_index close_gap item_is_stackable
test-take = refl

test-take_too_many : (item_take_from_bank held 7 6 zero_item).0 ≡ neg 1
unfolding item_take_from_bank find_index close_gap item_is_stackable
test-take_too_many = refl

test-deposit : (item_deposit_to_bank held (monomates 2 9)).0 ≡ pos 0
unfolding item_deposit_to_bank find_index item_is_stackable
test-deposit = refl

item_take_from_bank-units_example :
    let (r, rv', b') = item_take_from_bank held 7 2 zero_item in
    units 3 b' + handed 3 r rv' ≡ units 3 held
item_take_from_bank-units_example = item_take_from_bank-units 3 7 2 zero_item held-IsValid

deposit_accepts : (item_deposit_to_bank held (monomates 2 9)).0 ≢ neg 1
unfolding item_deposit_to_bank find_index item_is_stackable
deposit_accepts e = cc

deposit_fits : item_is_stackable 3 ≡ true → units 3 held + 2 < 256
unfolding item_is_stackable
deposit_fits t = omega arith

item_deposit_to_bank-units_example :
    units 3 (item_deposit_to_bank held (monomates 2 9)).1
    ≡ units 3 held + units_of 3 (monomates 2 9)
item_deposit_to_bank-units_example =
    item_deposit_to_bank-units 3 (monomates 2 9) held-IsValid deposit_fits deposit_accepts
