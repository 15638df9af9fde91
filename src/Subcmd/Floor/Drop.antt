-- ===== src/Subcmd/Floor/Drop.antt =====
-- `handle_bb_drop_pos` and `handle_bb_drop_stack` of src/subcmd.c: meseta on the floor.
use ship_server.Base.{
  ℕ, ◌+◌, ◌%◌, ◌<◌, ◌≤◌, ◌≡◌, ◌≢◌, ◌⊎◌, inl, inr, refl, ap, sym, ◌∙◌, true, false, not, ◌||◌, [],
  ◌∷◌, ◌==◌, ==_refl, ℤ, pos, neg, arith, get_or, set, ltb, u32, u32_max, min, Bool-cases,
}
use ship_server.Items.{Item}
use ship_server.Lobby.{Lobby, type_lobby, bb}
use ship_server.Lobby.Floor.{lobby_add_item2_locked, lobby_remove_item_locked}
use ship_server.Lobby.Floor.Units.{lobby_add_item2_locked-lays}
use ship_server.Lobby.Floor.Laws.{lobby_add_item2-remove}
use ship_server.Subcmd.Floor.{
  Seat, FloorPacket, Sent, Done, is_good, item_meseta, finish, meseta_removed, stack_item,
  stack_laid, handle_bb_drop_stack, announce, purse, pick_found, handle_bb_pick_up,
}

-- A packet of the right size from the client itself, in a Blue Burst team.
abbrev pub IsGood : ℕ → ℕ → Seat → FloorPacket → Type 0
IsGood len size s pkt =
    (s.lobby.type ≢ type_lobby) × (s.lobby.version ≡ bb) × (is_good len size s pkt ≡ true)

-- The id that the next thing the client drops gets.
abbrev next_id : Seat → ℕ
next_id s = (get_or s.highest_item s.client_id 0 + 1) % u32

-- A pile of meseta.
abbrev IsPile : ℕ → ℕ → Item → Type 0
IsPile id amt it = (it.data_l0 ≡ item_meseta) × (it.data2_l ≡ amt) × (it.item_id ≡ id)

module _ (send : Sent → ℤ) where
  -- What dropping meseta leaves when the packet is the one that was announced: the pile is on the
  -- floor on both branches.
  abbrev pub PilesUp : Item → Seat → FloorPacket → Done → Type 0
  PilesUp junk s pkt d =
      let pile = stack_item send true junk s pkt (next_id s) in
      IsPile (next_id s) pkt.amount pile
      × (d.seat.lobby ≡ record s.lobby { item_queue = pile ∷ s.lobby.item_queue })
      × (((pkt.amount ≤ s.player.meseta) × (d.seat.player.meseta + pkt.amount ≡ s.player.meseta))
          ⊎ ((s.player.meseta < pkt.amount)
              × (d.rv ≡ neg 1)
              × (d.seat.player ≡ s.player)
              × (d.sent ≡ [])))

  stack_item-IsPile :
      (junk : Item) (s : Seat) (pkt : FloorPacket) (id : ℕ)
      → pkt.item_id ≡ u32_max
      → IsPile id pkt.amount (stack_item send true junk s pkt id)
  unfolding stack_item
  stack_item-IsPile junk s pkt id e =
      let meseta : (pkt.item_id == u32_max) ≡ true = ground arith in rw meseta (refl, refl, refl)

  -- Dropping meseta that `handle_bb_drop_pos` announced puts the pile on the floor of the team
  -- before the purse is looked at: with enough meseta the amount is taken from it, and with too
  -- little the call returns -1 and sends nothing, while the pile stays and the purse is as it was.
  pub handle_bb_drop_stack-PilesUp :
      (junk : Item) (s : Seat) (pkt : FloorPacket)
      → IsGood 0x14 0x03 s pkt
      → pkt.item_id ≡ u32_max
      → s.drop_item ≡ u32_max
      → s.drop_amt ≡ pkt.amount
      → PilesUp junk s pkt (handle_bb_drop_stack send true junk s pkt)
  unfolding handle_bb_drop_stack stack_laid meseta_removed finish
  handle_bb_drop_stack-PilesUp junk s pkt (ne, version, good) e e1 e2 =
      let team : (s.lobby.type == type_lobby) ≡ false = ground arith in
      let meseta : (pkt.item_id == u32_max) ≡ true = ground arith in
      let same : (not (pkt.item_id == s.drop_item) || not (pkt.amount == s.drop_amt)) ≡ false =
        rw e (rw e1 (rw e2 (rw (==_refl pkt.amount) refl))) in
      let s' = record s { highest_item = set s.highest_item s.client_id (next_id s) } in
      let pile = stack_item send true junk s pkt (next_id s) in
      let is_pile = stack_item-IsPile junk s pkt (next_id s) e in
      elim (Bool-cases (ltb s.player.meseta pkt.amount)) [
        | inl short ↦ rw team (
            rw good (
              rw meseta (
                rw same (
                  rw (lobby_add_item2_locked-lays s.lobby pile version)
                    (rw meseta (rw short (is_pile, refl, inr (ground arith, refl, refl, refl))))))))
        | inr enough ↦ rw team (
            rw good (
              rw meseta (
                rw same (
                  rw (lobby_add_item2_locked-lays s.lobby pile version)
                    (rw meseta (rw enough (is_pile, refl, inl (ground arith, ground arith))))))))
      ]

  purse-min : (pile meseta : ℕ) → purse send true pile meseta ≡ min 999999 ((pile + meseta) % u32)
  unfolding purse
  purse-min pile meseta = ground arith

  -- Another client of the team that picks the pile up then has its own meseta and the pile's, as a
  -- 32-bit sum and no more than 999,999, and the floor is as before the pile was dropped, also when
  -- the client that dropped it kept its own.
  pub handle_bb_drop_stack-pick_up :
      (junk rv : Item) (s t : Seat) (pkt pkt' : FloorPacket)
      → IsGood 0x14 0x03 s pkt
      → pkt.item_id ≡ u32_max
      → s.drop_item ≡ u32_max
      → s.drop_amt ≡ pkt.amount
      → t.lobby ≡ (handle_bb_drop_stack send true junk s pkt).seat.lobby
      → is_good 0x14 0x03 t pkt' ≡ true
      → pkt'.item_id ≡ next_id s
      → let d = handle_bb_pick_up send true rv t pkt' in
        (d.seat.player.meseta ≡ min 999999 ((pkt.amount + t.player.meseta) % u32))
        × (d.seat.lobby ≡ s.lobby)
  unfolding handle_bb_pick_up pick_found announce
  handle_bb_drop_stack-pick_up junk rv s t pkt pkt' good e e1 e2 shared good' e' =
      let drop = handle_bb_drop_stack-PilesUp junk s pkt good e e1 e2 in
      let pile = stack_item send true junk s pkt (next_id s) in
      let floor : t.lobby ≡ record s.lobby { item_queue = pile ∷ s.lobby.item_queue } =
        shared ∙ drop.1 in
      let after : Lobby = (lobby_add_item2_locked true s.lobby pile).1 in
      let laid : after ≡ record s.lobby { item_queue = pile ∷ s.lobby.item_queue } =
        ap (λ r. r.1) (lobby_add_item2_locked-lays s.lobby pile good.1) in
      let team : (t.lobby.type == type_lobby) ≡ false = rw floor (ground (arith, good.0)) in
      let found : lobby_remove_item_locked t.lobby pkt'.item_id rv ≡ (pos 0, pile, s.lobby) =
        ap (λ k. lobby_remove_item_locked k pkt'.item_id rv) (floor ∙ sym laid)
        ∙ ap (λ k. lobby_remove_item_locked after k rv) (e' ∙ sym drop.0.2)
        ∙ lobby_add_item2-remove s.lobby pile rv good.1 in
      let meseta : (pile.data_l0 == item_meseta) ≡ true = rw drop.0.0 refl in
      let held = ap (λ k. purse send true k t.player.meseta) drop.0.1 in
      rw team (rw good' (rw found (rw meseta (held ∙ purse-min pkt.amount t.player.meseta, refl))))
