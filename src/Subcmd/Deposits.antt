-- ===== src/Subcmd/Deposits.antt =====
-- Deposits through the handler: when units are kept, and when they are made.
use ship_server.Base.{
  ℕ, ◌+◌, ◌-◌, ◌≤◌, ◌<◌, ◌≡◌, ◌≢◌, refl, ap, ◌∙◌, inl, inr, Bool, true, false, ◌&&◌, not, ◌||◌, [],
  some, ltb, ℤ, neg, u32_max, arith, take, get_or, find_index, ◌==◌, if◌then◌else◌, Bool-cases,
  ==_ne, ==_refl,
}
use ship_server.Items.{Item, no_item, has_id, amount, item_is_stackable}
use ship_server.Items.Inventory.{item_remove_from_inv, takes_part}
use ship_server.Items.Inventory.Units.{taken_of, item_with, item_remove_from_inv-units}
use ship_server.Items.Bank.Units as BankUnits
use ship_server.Lobby.{Lobby, type_lobby}
use ship_server.Subcmd.{
  ItemTypes, Player, BankAct, Told, Outcome, quiet, act_deposit, deposit_removed, deposit_item,
  handle_bb_bank_action,
}
use ship_server.Subcmd.Units.{total, banked, found-item, deposit_removed-units}
use ship_server.Subcmd.Valid.{IsSound}

-- A branch that tells nothing was not taken, if something was told.
skip-quiet :
    (b : Bool) (x y : Outcome)
    → x.told ≡ []
    → (if b then x else y).told ≢ []
    → (if b then x else y) ≡ y
skip-quiet true x y e ok = absurd (ok e)
skip-quiet false x y e ok = refl

deposit_item-removed :
    (send : Told → ℤ) (types : ItemTypes) (p : Player) (l : Lobby) (pkt : BankAct)
    → (deposit_item send types p l pkt).told ≢ []
    → deposit_item send types p l pkt
      ≡ deposit_removed send types p l
          (get_or p.items (find_index (has_id pkt.item_id) p.item_count p.items) no_item)
          pkt.item_amount
          (item_remove_from_inv p.items p.item_count pkt.item_id pkt.item_amount)
unfolding deposit_item
deposit_item-removed send types p l pkt ok =
    let it = get_or p.items (find_index (has_id pkt.item_id) p.item_count p.items) no_item in
    let missing = find_index (has_id pkt.item_id) p.item_count p.items == p.item_count in
    let several = not (item_is_stackable it.data_l0) && ltb 1 pkt.item_amount in
    let removed =
      deposit_removed send types p l it pkt.item_amount
        (item_remove_from_inv p.items p.item_count pkt.item_id pkt.item_amount) in
    let one =
      skip-quiet missing (quiet (neg 1) p l) (if several then quiet (neg 1) p l else removed) refl
        ok in
    one ∙ skip-quiet several (quiet (neg 1) p l) removed refl (λ e. ok (ap (λ o. o.told) one ∙ e))

handle_bb_bank_action-deposit_item :
    (send : Told → ℤ) (types : ItemTypes) (p : Player) (l : Lobby) (pkt : BankAct)
    → pkt.action ≡ act_deposit
    → pkt.item_id ≢ u32_max
    → (handle_bb_bank_action send types p l pkt).told ≢ []
    → handle_bb_bank_action send types p l pkt ≡ deposit_item send types p l pkt
unfolding handle_bb_bank_action
handle_bb_bank_action-deposit_item send types p l pkt act item ok =
    elim (Bool-cases (l.type == type_lobby)) [
      | inl a ↦ absurd (ok (rw a refl))
      | inr a ↦ elim (Bool-cases (not (pkt.pkt_len == 0x18) || not (pkt.size == 0x04))) [
        | inl b ↦ absurd (ok (rw (a, b) refl))
        | inr b ↦ rw (a, b, act, ==_ne _ _ item) refl
      ]
    ]

deposit_item-units :
    (send : Told → ℤ) (types : ItemTypes) (p : Player) (l : Lobby) (pkt : BankAct) (code : ℕ)
    (x : Item)
    → IsSound p
    → item_with pkt.item_id (take p.item_count p.items) ≡ some x
    → pkt.item_amount < 256
    → (item_is_stackable x.data_l0 ≡ true
        → BankUnits.units x.data_l0 p.bank + pkt.item_amount < 256)
    → (deposit_item send types p l pkt).told ≢ []
    → total code (deposit_item send types p l pkt).player + taken_of code pkt.item_amount (some x)
      ≡ total code p + banked code x pkt.item_amount
deposit_item-units send types p l pkt code x s names h fits ok =
    let amt = pkt.item_amount in
    let r = item_remove_from_inv p.items p.item_count pkt.item_id amt in
    let found = (found-item pkt.item_id p.item_count p.items x names).1 in
    let same =
      deposit_item-removed send types p l pkt ok
      ∙ ap (λ it. deposit_removed send types p l it amt r) found in
    let told : (deposit_removed send types p l x amt r).told ≢ [] =
      λ e. ok (ap (λ o. o.told) same ∙ e) in
    omega (
      arith,
      ap (λ o. total code o.player) same,
      deposit_removed-units send types p l x amt code r s h fits told,
      item_remove_from_inv-units code pkt.item_id amt s.0,
      ap (taken_of code amt) names,
    )

taken-banked :
    (code : ℕ) (x : Item) (amt : ℕ)
    → amt < 256
    → (item_is_stackable x.data_l0 ≡ true → amt ≤ amount x)
    → taken_of code amt (some x) ≡ banked code x amt
unfolding takes_part
taken-banked code x amt h few = elim (Bool-cases (item_is_stackable x.data_l0)) [
  | inl t ↦ rw t (ground (arith, few t))
  | inr t ↦ rw t refl
]

taken-all :
    (x : Item) (amt : ℕ)
    → item_is_stackable x.data_l0 ≡ true
    → amount x ≤ amt
    → (taken_of x.data_l0 amt (some x) ≡ amount x) × (banked x.data_l0 x amt ≡ amt)
unfolding takes_part
taken-all x amt t more = rw (t, ==_refl x.data_l0) (ground arith)

-- A deposit at the bank, when the lobby is told of it, of an item that does not stack or of no more
-- of a stack than the player holds, loses and makes nothing: inventory and bank together hold as
-- many units of every code as before, if the bank's stack stays below 256.
pub handle_bb_bank_action-conserves :
    (send : Told → ℤ) (types : ItemTypes) (p : Player) (l : Lobby) (pkt : BankAct) (code : ℕ)
    (x : Item)
    → IsSound p
    → pkt.action ≡ act_deposit
    → pkt.item_id ≢ u32_max
    → item_with pkt.item_id (take p.item_count p.items) ≡ some x
    → pkt.item_amount < 256
    → (item_is_stackable x.data_l0 ≡ true
        → (BankUnits.units x.data_l0 p.bank + pkt.item_amount < 256) × (pkt.item_amount ≤ amount x))
    → (handle_bb_bank_action send types p l pkt).told ≢ []
    → total code (handle_bb_bank_action send types p l pkt).player ≡ total code p
handle_bb_bank_action-conserves send types p l pkt code x s act item names h fits ok =
    let same = handle_bb_bank_action-deposit_item send types p l pkt act item ok in
    let told : (deposit_item send types p l pkt).told ≢ [] = λ e. ok (ap (λ o. o.told) same ∙ e) in
    omega (
      arith,
      ap (λ o. total code o.player) same,
      deposit_item-units send types p l pkt code x s names h (λ t. (fits t).0) told,
      taken-banked code x pkt.item_amount h (λ t. (fits t).1),
    )

-- A deposit that the bank takes and that is told, of a stack that the player holds and by an amount
-- in the packet at least as large as the stack, makes the difference out of nothing: the total of
-- that item in inventory and bank grows by it. The player's data are sound, the amount is below
-- 256, and so is what the bank then holds of the item.
pub handle_bb_bank_action-duplicates :
    (send : Told → ℤ) (types : ItemTypes) (p : Player) (l : Lobby) (pkt : BankAct) (x : Item)
    → IsSound p
    → pkt.action ≡ act_deposit
    → pkt.item_id ≢ u32_max
    → item_with pkt.item_id (take p.item_count p.items) ≡ some x
    → pkt.item_amount < 256
    → item_is_stackable x.data_l0 ≡ true
    → BankUnits.units x.data_l0 p.bank + pkt.item_amount < 256
    → amount x ≤ pkt.item_amount
    → (handle_bb_bank_action send types p l pkt).told ≢ []
    → total x.data_l0 (handle_bb_bank_action send types p l pkt).player
      ≡ total x.data_l0 p + (pkt.item_amount - amount x)
handle_bb_bank_action-duplicates send types p l pkt x s act item names h t fits more ok =
    let same = handle_bb_bank_action-deposit_item send types p l pkt act item ok in
    let told : (deposit_item send types p l pkt).told ≢ [] = λ e. ok (ap (λ o. o.told) same ∙ e) in
    omega (
      arith,
      ap (λ o. total x.data_l0 o.player) same,
      deposit_item-units send types p l pkt x.data_l0 x s names h (λ _. fits) told,
      taken-all x pkt.item_amount t more,
    )
