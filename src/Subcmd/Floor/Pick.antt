-- ===== src/Subcmd/Floor/Pick.antt =====
-- `handle_bb_pick_up` of src/subcmd.c: items over the inventory and the floor together.
use ship_server.Base.{
  ℕ, zero, suc, ◌+◌, ◌<◌, ◌≡◌, ◌≢◌, ◌⊎◌, inl, inr, refl, ap, sym, subst, ◌∙◌, Bool, List, [], ◌==◌,
  ℤ, pos, negsuc, neg, arith, All, take, Bool-cases,
}
use ship_server.Items.{Item, amount}
use ship_server.Items.Inventory.{item_add_to_inv}
use ship_server.Items.Inventory.Spec.{entries}
use ship_server.Items.Inventory.Units.{
  units, units_of, item_add_to_inv-units, Refuses, item_add_to_inv-Refuses,
}
use ship_server.Items.Inventory.Valid.{IsValid}
use ship_server.Lobby.{Lobby, type_lobby, bb}
use ship_server.Lobby.Floor.{lobby_remove_item_locked}
use ship_server.Lobby.Floor.Units.{TakesUp, lobby_remove_item_locked-TakesUp}
use ship_server.Subcmd.Floor.{
  Seat, FloorPacket, Sent, Done, is_good, item_meseta, announce, pick_added, pick_found,
  handle_bb_pick_up,
}

-- The units of a code that a player holds and that lie on the floor of its team.
abbrev holding : ℕ → Seat → ℕ
holding code s =
    units code (take s.player.item_count s.player.items) + units code s.lobby.item_queue

-- The item can join the stacks that the player has of its code.
abbrev FitsStack : Seat → Item → Type 0
FitsStack s it = units it.data_l0 (take s.player.item_count s.player.items) + amount it < 256

-- An item that the inventory refused is gone.
abbrev LosesItem : ℕ → Seat → Done → Type 0
LosesItem code s d =
    (it : Item) × ((item_add_to_inv s.player.items s.player.item_count it).0 ≡ neg 1)
    × (holding code d.seat + units_of code it ≡ holding code s)
    × (d.rv ≡ neg 1)
    × (d.sent ≡ [])

abbrev pub Accounts : ℕ → Seat → Done → Type 0
Accounts code s d = (holding code d.seat ≡ holding code s) ⊎ LosesItem code s d

-- What the inventory answers to an item, as the cases of the handler need it.
Added : ℕ → Seat → Item → ℤ × List Item → Type 0
Added code s it (negsuc n, items) = (negsuc n ≡ neg 1) × (items ≡ s.player.items)
Added code s it (pos n, items) =
    units code (take (s.player.item_count + n) items)
    ≡ units code (take s.player.item_count s.player.items) + units_of code it

module _ (send : Sent → ℤ) (alloc : Bool) where
  pick_added-Accounts :
      (code : ℕ) (s : Seat) (pkt : FloorPacket) (it : Item) (q : List Item) (r : ℤ × List Item)
      → item_add_to_inv s.player.items s.player.item_count it ≡ r
      → Added code s it r
      → units code s.lobby.item_queue ≡ units_of code it + units code q
      → Accounts code s
          (pick_added send alloc (record s { lobby = record s.lobby { item_queue = q } }) pkt it r)
  unfolding pick_added announce Added
  pick_added-Accounts code s pkt it q (negsuc n, items) e added took =
      inr (it, ap (λ r. r.0) e ∙ added.0, rw added.1 (omega arith), refl, refl)
  pick_added-Accounts code s pkt it q (pos n, items) e added took = inl (omega arith)

added :
    (code : ℕ) (s : Seat) (it : Item) (r : ℤ × List Item)
    → item_add_to_inv s.player.items s.player.item_count it ≡ r
    → IsValid s.player.item_count s.player.items
    → FitsStack s it
    → Added code s it r
unfolding Added
added code s it (negsuc n, items) e v fits =
    subst (Refuses s.player.items) e (item_add_to_inv-Refuses s.player.items s.player.item_count it)
added code s it (pos n, items) e v fits =
    let code_pos : (item_add_to_inv s.player.items s.player.item_count it).0 ≡ pos n =
      ap (λ r. r.0) e in
    let accepted : (item_add_to_inv s.player.items s.player.item_count it).0 ≢ neg 1 = λ q. cc in
    subst
      (λ (r : ℤ × List Item).
        units code (take (s.player.item_count + entries r.0) r.1)
        ≡ units code (take s.player.item_count s.player.items) + units_of code it)
      e (item_add_to_inv-units code it v fits accepted)

module _ (send : Sent → ℤ) (alloc : Bool) where
  taken_up-Accounts :
      (code : ℕ) (s : Seat) (pkt : FloorPacket) (it : Item) (q : List Item)
      → code ≢ item_meseta
      → IsValid s.player.item_count s.player.items
      → FitsStack s it
      → units code s.lobby.item_queue ≡ units_of code it + units code q
      → Accounts code s (pick_found send alloc s pkt (pos 0, it, record s.lobby { item_queue = q }))
  unfolding pick_found announce
  taken_up-Accounts code s pkt it q ne v fits took =
      let it' : Item = record it { flags = 0; equipped = 1; tech = 0 } in
      elim (Bool-cases (it.data_l0 == item_meseta)) [
        | inl pile ↦ rw pile (inl (ground arith))
        | inr other ↦ rw other (
            pick_added-Accounts send alloc code s pkt it' q
              (item_add_to_inv s.player.items s.player.item_count it') refl
              (added code s it' (item_add_to_inv s.player.items s.player.item_count it') refl v
                fits)
              took)
      ]

  pick_found-Accounts :
      (code : ℕ) (s : Seat) (pkt : FloorPacket) (r : ℤ × Item × Lobby)
      → code ≢ item_meseta
      → IsValid s.player.item_count s.player.items
      → TakesUp (FitsStack s) code s.lobby r
      → Accounts code s (pick_found send alloc s pkt r)
  unfolding pick_found
  pick_found-Accounts code s pkt (negsuc n, it, l) ne v t = inl refl
  pick_found-Accounts code s pkt (pos (suc n), it, l) ne v t = inl refl
  pick_found-Accounts code s pkt (pos zero, it, l) ne v t =
      let outcome : Lobby → Type 0 =
        λ k. Accounts code s (pick_found send alloc s pkt (pos 0, it, k)) in
      subst outcome (sym t.2) (taken_up-Accounts code s pkt it l.item_queue ne v t.0 t.1)

  -- Picking up keeps the units of every item code, meseta aside, over the player's inventory and the
  -- floor of its Blue Burst team, on every branch but one: when the inventory refuses the item that
  -- was taken from the floor, the call returns -1, nothing is sent, and the item is in neither place.
  -- The inventory is valid, and no stack on the floor would make one of 256 or more.
  pub handle_bb_pick_up-Accounts :
      (code : ℕ) (junk : Item) (s : Seat) (pkt : FloorPacket)
      → code ≢ item_meseta
      → s.lobby.version ≡ bb
      → IsValid s.player.item_count s.player.items
      → All (FitsStack s) s.lobby.item_queue
      → Accounts code s (handle_bb_pick_up send alloc junk s pkt)
  unfolding handle_bb_pick_up
  handle_bb_pick_up-Accounts code junk s pkt ne version v fits =
      elim (Bool-cases (s.lobby.type == type_lobby)) [
        | inl e1 ↦ rw e1 (inl refl)
        | inr e1 ↦ rw e1 (elim (Bool-cases (is_good 0x14 0x03 s pkt)) [
          | inr e2 ↦ rw e2 (inl refl)
          | inl e2 ↦ rw e2 (
              pick_found-Accounts code s pkt (lobby_remove_item_locked s.lobby pkt.item_id junk) ne
                v
                (lobby_remove_item_locked-TakesUp (FitsStack s) code s.lobby pkt.item_id junk
                  version fits))
        ])
      ]
