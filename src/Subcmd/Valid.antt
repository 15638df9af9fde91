-- ===== src/Subcmd/Valid.antt =====
-- The inventory and the bank stay valid.
use ship_server.Base.{
  ℕ, zero, suc, ◌+◌, ◌-◌, ◌≡◌, refl, ap, ◌∙◌, inl, inr, List, [], ◌∷◌, ℤ, pos, negsuc, arith,
  length, take, get_or, find_index, Bool-cases,
}
use ship_server.Items.{Item, no_item, has_id}
use ship_server.Items.Inventory.{item_remove_from_inv}
use ship_server.Items.Inventory.Spec.{holds_id, entries}
use ship_server.Items.Inventory.Distinct.{Distinct}
use ship_server.Items.Inventory.Valid
use ship_server.Items.Inventory.Valid.{item_remove_from_inv-IsValid, item_add_to_inv-IsValid}
use ship_server.Items.Bank.{BankItem, Bank, zero_item, item_take_from_bank}
use ship_server.Items.Bank.Units
use ship_server.Items.Bank.Units.{item_deposit_to_bank-IsValid, item_take_from_bank-IsValid}
use ship_server.Lobby.{Lobby}
use ship_server.Subcmd.{
  ItemTypes, Player, BankAct, Told, is_worn_frame, unequip_units, bank_entry, deposit_meseta,
  take_meseta, deposit_done, deposit_removed, deposit_item, take_done, take_taken,
  handle_bb_bank_action,
}

-- A valid inventory and a valid bank.
abbrev pub IsSound : Player → Type 0
IsSound p = Valid.IsValid p.item_count p.items × Units.IsValid p.bank

length-unequip_units :
    (types : ItemTypes) (k : ℕ) (xs : List Item) → length (unequip_units types k xs) ≡ length xs
unfolding unequip_units
length-unequip_units types k [] = refl
length-unequip_units types zero (x ∷ xs) = refl
length-unequip_units types (suc k) (x ∷ xs) = ap suc (length-unequip_units types k xs)

holds_id-unequip_units :
    (types : ItemTypes) (id n k : ℕ) (xs : List Item)
    → holds_id id (take n (unequip_units types k xs)) ≡ holds_id id (take n xs)
unfolding unequip_units holds_id
holds_id-unequip_units types id zero k xs = refl
holds_id-unequip_units types id (suc n) k [] = refl
holds_id-unequip_units types id (suc n) zero (x ∷ xs) = refl
holds_id-unequip_units types id (suc n) (suc k) (x ∷ xs) =
    ground (arith, holds_id-unequip_units types id n k xs)

unequip_units-Distinct :
    (types : ItemTypes) (n k : ℕ) (xs : List Item)
    → Distinct (take n xs)
    → Distinct (take n (unequip_units types k xs))
unfolding unequip_units
unequip_units-Distinct types zero k xs d = tt
unequip_units-Distinct types (suc n) k [] d = tt
unequip_units-Distinct types (suc n) zero (x ∷ xs) d = d
unequip_units-Distinct types (suc n) (suc k) (x ∷ xs) d = (
  holds_id-unequip_units types _ n k xs ∙ ground (arith, d.0),
  unequip_units-Distinct types n k xs d.1,
)

unequip_units-IsValid :
    (types : ItemTypes) (n k : ℕ) (xs : List Item)
    → Valid.IsValid n xs
    → Valid.IsValid n (unequip_units types k xs)
unequip_units-IsValid types n k xs v = record {
  size = length-unequip_units types k xs ∙ v.size;
  within = v.within;
  distinct = unequip_units-Distinct types n k xs v.distinct;
}

deposit_done-IsSound :
    (send : Told → ℤ) (p : Player) (l : Lobby) (id amt : ℕ) (code : ℤ)
    → IsSound p
    → IsSound (deposit_done send p l id amt code).player
unfolding deposit_done
deposit_done-IsSound send p l id amt (negsuc _) s = s
deposit_done-IsSound send p l id amt (pos _) s = s

deposit_removed-IsSound :
    (send : Told → ℤ) (types : ItemTypes) (p : Player) (l : Lobby) (it : Item) (amt : ℕ)
    (r : ℤ × List Item)
    → IsSound p
    → Valid.IsValid (p.item_count - entries r.0) r.1
    → IsSound (deposit_removed send types p l it amt r).player
unfolding deposit_removed
deposit_removed-IsSound send types p l it amt (negsuc _, items) s v = s
deposit_removed-IsSound send types p l it amt (pos n, items) s v =
    deposit_done-IsSound send _ l _ amt _ (
      elim (Bool-cases (is_worn_frame types it)) [
        | inl w ↦ rw w (unequip_units-IsValid types _ _ items v)
        | inr w ↦ rw w v
      ],
      item_deposit_to_bank-IsValid (bank_entry it amt) s.1,
    )

deposit_item-IsSound :
    (send : Told → ℤ) (types : ItemTypes) (p : Player) (l : Lobby) (pkt : BankAct)
    → IsSound p
    → IsSound (deposit_item send types p l pkt).player
unfolding deposit_item
deposit_item-IsSound send types p l pkt s =
    let r = item_remove_from_inv p.items p.item_count pkt.item_id pkt.item_amount in
    let it = get_or p.items (find_index (has_id pkt.item_id) p.item_count p.items) no_item in
    ground (
      arith,
      deposit_removed-IsSound send types p l it pkt.item_amount r s
          (item_remove_from_inv-IsValid pkt.item_id pkt.item_amount s.0),
    )

take_done-IsSound :
    (send : Told → ℤ) (p : Player) (l : Lobby) (b : BankItem) (bank : Bank) (it : Item)
    (r : ℤ × List Item)
    → IsSound p
    → Units.IsValid bank
    → Valid.IsValid (p.item_count + entries r.0) r.1
    → IsSound (take_done send p l b bank it r).player
unfolding take_done
take_done-IsSound send p l b bank it (negsuc _, items) s u v =
    (s.0, item_deposit_to_bank-IsValid b u)
take_done-IsSound send p l b bank it (pos n, items) s u v = (v, u)

take_taken-IsSound :
    (send : Told → ℤ) (p : Player) (l : Lobby) (r : ℤ × BankItem × Bank)
    → IsSound p
    → Units.IsValid r.2
    → IsSound (take_taken send p l r).player
unfolding take_taken
take_taken-IsSound send p l (negsuc _, b, bank) s u = s
take_taken-IsSound send p l (pos n, b, bank) s u =
    take_done-IsSound send p _ b bank _ _ s u (item_add_to_inv-IsValid _ s.0)

-- The same items in both places.
abbrev SameItems : Player → Player → Type 0
SameItems p' p =
    (p'.items ≡ p.items)
    × (p'.item_count ≡ p.item_count)
    × (p'.bank.items ≡ p.bank.items)
    × (p'.bank.item_count ≡ p.bank.item_count)

SameItems-IsSound : (p' p : Player) → SameItems p' p → IsSound p → IsSound p'
SameItems-IsSound p' p e s = (
  rw (e.0, e.1) s.0,
  record { size = ap length e.2 ∙ s.1.size; within = omega (arith, e.3, s.1.within) },
)

deposit_meseta-SameItems :
    (p : Player) (l : Lobby) (amt : ℕ) → SameItems (deposit_meseta p l amt).player p
unfolding deposit_meseta
deposit_meseta-SameItems p l amt = ground arith

take_meseta-SameItems :
    (p : Player) (l : Lobby) (amt : ℕ) → SameItems (take_meseta p l amt).player p
unfolding take_meseta
take_meseta-SameItems p l amt = ground arith

-- `handle_bb_bank_action`, whatever the packet asks and however it ends, keeps the inventory valid,
-- its ids distinct, and the bank valid.
pub handle_bb_bank_action-IsSound :
    (send : Told → ℤ) (types : ItemTypes) (p : Player) (l : Lobby) (pkt : BankAct)
    → IsSound p
    → IsSound (handle_bb_bank_action send types p l pkt).player
unfolding handle_bb_bank_action
handle_bb_bank_action-IsSound send types p l pkt s =
    let taken = item_take_from_bank p.bank pkt.item_id pkt.item_amount zero_item in
    ground (
      arith,
      SameItems-IsSound (deposit_meseta p l pkt.meseta_amount).player p
          (deposit_meseta-SameItems p l pkt.meseta_amount) s,
      SameItems-IsSound (take_meseta p l pkt.meseta_amount).player p
          (take_meseta-SameItems p l pkt.meseta_amount) s,
      deposit_item-IsSound send types p l pkt s,
      take_taken-IsSound send p l taken s
          (item_take_from_bank-IsValid pkt.item_id pkt.item_amount zero_item s.1),
    )
