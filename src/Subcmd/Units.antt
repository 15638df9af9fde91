-- ===== src/Subcmd/Units.antt =====
-- What a deposit does to the units of an item over inventory and bank together.
use ship_server.Base.{
  ℕ, zero, suc, ◌+◌, ◌-◌, ◌<◌, ◌≡◌, ◌≢◌, refl, sym, ap, ◌∙◌, inl, inr, true, List, [], ◌∷◌, some, ℤ,
  pos, negsuc, neg, arith, take, get_or, find_index, ◌==◌, if◌then◌else◌, Bool-cases,
  byte1-set_byte1,
}
use ship_server.Items.{Item, no_item, has_id, item_is_stackable}
use ship_server.Items.Inventory.Spec.{entries}
use ship_server.Items.Inventory.Units as Inventory
use ship_server.Items.Inventory.Units.{taken, taken_of, item_with, item_remove_from_inv-units}
use ship_server.Items.Bank.{Bank, stack_of, item_deposit_to_bank}
use ship_server.Items.Bank.Units as BankUnits
use ship_server.Items.Bank.Deposits.{item_deposit_to_bank-units}
use ship_server.Lobby.{Lobby}
use ship_server.Subcmd.{
  ItemTypes, Player, Told, is_worn_frame, unequip_units, bank_entry, deposit_done, deposit_removed,
}
use ship_server.Subcmd.Meseta.{deposit_done-player}
use ship_server.Subcmd.Valid.{IsSound}

-- The units of a code over inventory and bank.
abbrev pub total : ℕ → Player → ℕ
total code p = Inventory.units code (take p.item_count p.items) + BankUnits.units code p.bank

-- What a deposit of `amt` of an item puts into the bank.
abbrev pub banked : ℕ → Item → ℕ → ℕ
banked code x amt =
    if x.data_l0 == code then (if item_is_stackable x.data_l0 then amt else 1) else 0

unequip_units-units :
    (types : ItemTypes) (code n k : ℕ) (xs : List Item)
    → Inventory.units code (take n (unequip_units types k xs)) ≡ Inventory.units code (take n xs)
unfolding unequip_units
unequip_units-units types code zero k xs = refl
unequip_units-units types code (suc n) k [] = refl
unequip_units-units types code (suc n) zero (x ∷ xs) = refl
unequip_units-units types code (suc n) (suc k) (x ∷ xs) =
    ground (arith, unequip_units-units types code n k xs)

-- The search of the handler finds the item that the id names.
pub found-item :
    (id n : ℕ) (xs : List Item) (x : Item)
    → item_with id (take n xs) ≡ some x
    → (find_index (has_id id) n xs < n) × (get_or xs (find_index (has_id id) n xs) no_item ≡ x)
unfolding item_with find_index
found-item id zero xs x e = cc
found-item id (suc n) [] x e = cc
found-item id (suc n) (y ∷ xs) x e = elim (Bool-cases (y.item_id == id)) [
  | inl h ↦ ground arith
  | inr h ↦ ground (arith, found-item id n xs x)
]

bank_entry-units :
    (code : ℕ) (x : Item) (amt : ℕ)
    → amt < 256
    → BankUnits.units_of code (bank_entry x amt) ≡ banked code x amt
bank_entry-units code x amt h = elim (Bool-cases (item_is_stackable x.data_l0)) [
  | inl t ↦ rw t (rw (t, byte1-set_byte1 x.data_l1 amt) (ground arith))
  | inr t ↦ rw t (rw t refl)
]

bank_entry-code : (x : Item) (amt : ℕ) → (bank_entry x amt).data_l0 ≡ x.data_l0
bank_entry-code x amt = ground arith

bank_entry-fits :
    (b : Bank) (x : Item) (amt : ℕ)
    → amt < 256
    → (item_is_stackable x.data_l0 ≡ true → BankUnits.units x.data_l0 b + amt < 256)
    → item_is_stackable (bank_entry x amt).data_l0 ≡ true
    → BankUnits.units (bank_entry x amt).data_l0 b + stack_of (bank_entry x amt) < 256
bank_entry-fits b x amt h fits t =
    let stacks : item_is_stackable x.data_l0 ≡ true =
      ap item_is_stackable (sym (bank_entry-code x amt)) ∙ t in
    rw stacks (omega (arith, fits stacks, byte1-set_byte1 x.data_l1 amt))

deposit_done-accepted :
    (send : Told → ℤ) (p : Player) (l : Lobby) (id amt : ℕ) (code : ℤ)
    → (deposit_done send p l id amt code).told ≢ []
    → code ≢ neg 1
unfolding deposit_done
deposit_done-accepted send p l id amt (negsuc _) ok = λ e. ok refl
deposit_done-accepted send p l id amt (pos _) ok = λ e. cc

-- The deposit after the removal, when the lobby was told of it.
pub deposit_removed-units :
    (send : Told → ℤ) (types : ItemTypes) (p : Player) (l : Lobby) (x : Item) (amt code : ℕ)
    (r : ℤ × List Item)
    → IsSound p
    → amt < 256
    → (item_is_stackable x.data_l0 ≡ true → BankUnits.units x.data_l0 p.bank + amt < 256)
    → (deposit_removed send types p l x amt r).told ≢ []
    → total code (deposit_removed send types p l x amt r).player
      ≡ Inventory.units code (take (p.item_count - entries r.0) r.1)
        + (BankUnits.units code p.bank + banked code x amt)
unfolding deposit_removed
deposit_removed-units send types p l x amt code (negsuc _, items) s h fits ok = absurd (ok refl)
deposit_removed-units send types p l x amt code (pos n, items) s h fits ok =
    let left = p.item_count - n in
    let entry = bank_entry x amt in
    let bank = item_deposit_to_bank p.bank entry in
    let accepted : bank.0 ≢ neg 1 = deposit_done-accepted send _ l _ amt bank.0 ok in
    let inventory : Inventory.units code
          (take left (if is_worn_frame types x then unequip_units types left items else items))
        ≡ Inventory.units code (take left items) =
      elim (Bool-cases (is_worn_frame types x)) [
        | inl w ↦ rw w (unequip_units-units types code left left items)
        | inr w ↦ rw w refl
      ] in
    let added =
      item_deposit_to_bank-units code entry s.1 (bank_entry-fits p.bank x amt h fits) accepted in
    ap (total code) (deposit_done-player send _ l _ amt bank.0)
    ∙ omega (arith, inventory, added, bank_entry-units code x amt h)
