-- ===== src/Subcmd/Examples.antt =====
-- The handlers' theorems at a player with three Monomates and a Saber, and a bank with five
-- Monomates.
use ship_server.Base.{
  ℕ, ◌+◌, ◌-◌, ◌≡◌, ◌≢◌, ◌≤◌, ◌<◌, refl, true, [], some, ℤ, pos, take, arith, u32_max, find_index,
  close_gap,
}
use ship_server.Items.{amount, item_is_stackable}
use ship_server.Items.Inventory.{item_remove_from_inv}
use ship_server.Items.Inventory.Units.{item_with}
use ship_server.Items.Bank.{item_deposit_to_bank}
use ship_server.Items.Bank.Units
use ship_server.Lobby.Sample.{team}
use ship_server.Subcmd.{
  BankAct, Told, act_deposit, deposit_done, deposit_removed, deposit_item, handle_bb_bank_action,
  deposit_meseta,
}
use ship_server.Subcmd.Sample.{types, monomates, player, items-Distinct}
use ship_server.Subcmd.Meseta.{KeepsMeseta, handle_bb_bank_action-KeepsMeseta}
use ship_server.Subcmd.Valid.{IsSound, handle_bb_bank_action-IsSound}
use ship_server.Subcmd.Units.{total}
use ship_server.Subcmd.Deposits.{handle_bb_bank_action-conserves, handle_bb_bank_action-duplicates}

-- The deposit of `n` of item `id`, or of `amt` meseta.
abbrev deposit : ℕ → ℕ → ℕ → BankAct
deposit id n amt = record {
  pkt_len = 0x18;
  size = 0x04;
  item_id = id;
  meseta_amount = amt;
  action = act_deposit;
  item_amount = n;
}

abbrev sent : Told → ℤ
sent t = pos 0

player-IsSound : IsSound player
player-IsSound = (
  record { size = refl; within = omega arith; distinct = items-Distinct },
  record { size = refl; within = omega arith },
)

test-meseta :
    (handle_bb_bank_action sent types player team (deposit u32_max 0 200)).player.bank.meseta ≡ 1200
unfolding handle_bb_bank_action deposit_meseta
test-meseta = refl

handle_bb_bank_action-KeepsMeseta_example :
    KeepsMeseta player (handle_bb_bank_action sent types player team (deposit u32_max 0 200)).player
handle_bb_bank_action-KeepsMeseta_example =
    handle_bb_bank_action-KeepsMeseta sent types player team (deposit u32_max 0 200) (omega arith)
      (omega arith, omega arith)

handle_bb_bank_action-IsSound_example :
    IsSound (handle_bb_bank_action sent types player team (deposit 7 2 0)).player
handle_bb_bank_action-IsSound_example =
    handle_bb_bank_action-IsSound sent types player team (deposit 7 2 0) player-IsSound

names_monomates : item_with 7 (take 2 player.items) ≡ some monomates
unfolding item_with
names_monomates = refl

not_meseta : 7 ≢ u32_max
not_meseta e = omega arith

told_of_two : (handle_bb_bank_action sent types player team (deposit 7 2 0)).told ≢ []
unfolding handle_bb_bank_action deposit_item deposit_removed deposit_done item_remove_from_inv
    item_deposit_to_bank item_is_stackable find_index close_gap
told_of_two e = cc

told_of_nine : (handle_bb_bank_action sent types player team (deposit 7 9 0)).told ≢ []
unfolding handle_bb_bank_action deposit_item deposit_removed deposit_done item_remove_from_inv
    item_deposit_to_bank item_is_stackable find_index close_gap
told_of_nine e = cc

stackable : item_is_stackable 3 ≡ true
unfolding item_is_stackable
stackable = refl

two_fit : item_is_stackable 3 ≡ true → (Units.units 3 player.bank + 2 < 256) × (2 ≤ 3)
unfolding item_is_stackable
two_fit t = (omega arith, omega arith)

nine_fit : Units.units 3 player.bank + 9 < 256
unfolding item_is_stackable
nine_fit = omega arith

handle_bb_bank_action-conserves_example :
    total 3 (handle_bb_bank_action sent types player team (deposit 7 2 0)).player ≡ total 3 player
handle_bb_bank_action-conserves_example =
    handle_bb_bank_action-conserves sent types player team (deposit 7 2 0) 3 monomates
      player-IsSound refl not_meseta names_monomates (omega arith) two_fit told_of_two

-- Nine of three Monomates make six.
handle_bb_bank_action-duplicates_example :
    total 3 (handle_bb_bank_action sent types player team (deposit 7 9 0)).player
    ≡ total 3 player + (9 - amount monomates)
handle_bb_bank_action-duplicates_example =
    handle_bb_bank_action-duplicates sent types player team (deposit 7 9 0) monomates player-IsSound
      refl not_meseta names_monomates (omega arith) stackable nine_fit (omega arith) told_of_nine
