-- ===== src/Subcmd/Meseta.antt =====
-- Meseta between a character and its bank.
use ship_server.Base.{
  ℕ, ◌+◌, ◌≤◌, ◌<◌, ◌≡◌, refl, ◌∙◌, List, ℤ, pos, negsuc, u32, find_index, get_or, arith,
}
use ship_server.Items.{Item, has_id, no_item}
use ship_server.Items.Inventory.{item_remove_from_inv}
use ship_server.Items.Bank.{BankItem, Bank, zero_item, item_take_from_bank}
use ship_server.Items.Bank.Units.{item_deposit_to_bank-meseta, item_take_from_bank-meseta}
use ship_server.Lobby.{Lobby}
use ship_server.Subcmd.{
  deposit_done, take_done, bank_entry, ItemTypes, Player, BankAct, Told, deposit_meseta,
  take_meseta, deposit_removed, deposit_item, take_taken, handle_bb_bank_action,
}

-- No more than 999,999 meseta on the character and in the bank.
abbrev IsCapped : Player → Type 0
IsCapped p = (p.meseta ≤ 999999) × (p.bank.meseta ≤ 999999)

-- A player with as much meseta in each place.
abbrev SameMeseta : Player → Player → Type 0
SameMeseta p' p = (p'.meseta ≡ p.meseta) × (p'.bank.meseta ≡ p.bank.meseta)

abbrev pub KeepsMeseta : Player → Player → Type 0
KeepsMeseta p p' = IsCapped p' × (p'.meseta + p'.bank.meseta ≡ p.meseta + p.bank.meseta)

deposit_meseta-KeepsMeseta :
    (p : Player) (l : Lobby) (amt : ℕ) → IsCapped p → KeepsMeseta p (deposit_meseta p l amt).player
unfolding deposit_meseta
deposit_meseta-KeepsMeseta p l amt h = ground arith

take_meseta-KeepsMeseta :
    (p : Player) (l : Lobby) (amt : ℕ)
    → amt < u32
    → IsCapped p
    → KeepsMeseta p (take_meseta p l amt).player
unfolding take_meseta
take_meseta-KeepsMeseta p l amt lt h = ground arith

SameMeseta-KeepsMeseta : (p p' : Player) → SameMeseta p' p → IsCapped p → KeepsMeseta p p'
SameMeseta-KeepsMeseta p p' s h = omega arith

pub deposit_done-player :
    (send : Told → ℤ) (p : Player) (l : Lobby) (id amt : ℕ) (code : ℤ)
    → (deposit_done send p l id amt code).player ≡ p
unfolding deposit_done
deposit_done-player send p l id amt (negsuc _) = refl
deposit_done-player send p l id amt (pos _) = refl

deposit_removed-SameMeseta :
    (send : Told → ℤ) (types : ItemTypes) (p : Player) (l : Lobby) (it : Item) (amt : ℕ)
    (r : ℤ × List Item)
    → SameMeseta (deposit_removed send types p l it amt r).player p
unfolding deposit_removed
deposit_removed-SameMeseta send types p l it amt (negsuc _, items) = (refl, refl)
deposit_removed-SameMeseta send types p l it amt (pos n, items) =
    rw (deposit_done-player send) (refl, item_deposit_to_bank-meseta p.bank (bank_entry it amt))

take_done-SameMeseta :
    (send : Told → ℤ) (p : Player) (l : Lobby) (b : BankItem) (bank : Bank) (it : Item)
    (r : ℤ × List Item)
    → bank.meseta ≡ p.bank.meseta
    → SameMeseta (take_done send p l b bank it r).player p
unfolding take_done
take_done-SameMeseta send p l b bank it (negsuc _, items) e =
    (refl, item_deposit_to_bank-meseta bank b ∙ e)
take_done-SameMeseta send p l b bank it (pos n, items) e = (refl, e)

take_taken-SameMeseta :
    (send : Told → ℤ) (p : Player) (l : Lobby) (r : ℤ × BankItem × Bank)
    → r.2.meseta ≡ p.bank.meseta
    → SameMeseta (take_taken send p l r).player p
unfolding take_taken
take_taken-SameMeseta send p l (negsuc _, b, bank) e = (refl, refl)
take_taken-SameMeseta send p l (pos n, b, bank) e = take_done-SameMeseta send p _ b bank _ _ e

deposit_item-SameMeseta :
    (send : Told → ℤ) (types : ItemTypes) (p : Player) (l : Lobby) (pkt : BankAct)
    → SameMeseta (deposit_item send types p l pkt).player p
unfolding deposit_item
deposit_item-SameMeseta send types p l pkt =
    let r = item_remove_from_inv p.items p.item_count pkt.item_id pkt.item_amount in
    let it = get_or p.items (find_index (has_id pkt.item_id) p.item_count p.items) no_item in
    ground (arith, deposit_removed-SameMeseta send types p l it pkt.item_amount r)

-- `handle_bb_bank_action`, whatever the packet asks and however it ends, keeps the meseta of the
-- character and the bank together, and neither goes above 999,999 if neither was; for any amount
-- in the packet that 32 bits hold.
pub handle_bb_bank_action-KeepsMeseta :
    (send : Told → ℤ) (types : ItemTypes) (p : Player) (l : Lobby) (pkt : BankAct)
    → pkt.meseta_amount < u32
    → IsCapped p
    → KeepsMeseta p (handle_bb_bank_action send types p l pkt).player
unfolding handle_bb_bank_action
handle_bb_bank_action-KeepsMeseta send types p l pkt lt h =
    let taken = item_take_from_bank p.bank pkt.item_id pkt.item_amount zero_item in
    ground (
      arith,
      deposit_meseta-KeepsMeseta p l pkt.meseta_amount h,
      take_meseta-KeepsMeseta p l pkt.meseta_amount lt h,
      SameMeseta-KeepsMeseta p _ (deposit_item-SameMeseta send types p l pkt) h,
      SameMeseta-KeepsMeseta p _
          (take_taken-SameMeseta send p l taken
            (item_take_from_bank-meseta p.bank pkt.item_id pkt.item_amount zero_item))
          h,
    )
