-- ===== src/Subcmd/Wear/Flags.antt =====
-- `handle_bb_equip`, `handle_bb_unequip` and `handle_bb_medic` of src/subcmd.c.
use ship_server.Base.{
  ℕ, zero, suc, ◌+◌, ◌<◌, ◌≤◌, ◌≡◌, ◌≢◌, ◌⊎◌, inl, inr, refl, ap, ◌∙◌, Bool, true, false, ◌&&◌,
  List, [], ◌∷◌, ◌==◌, if◌then◌else◌, ℤ, neg, u32, arith, All, length, take, get_or, set, ltb,
  has_flag, set_flag, clear_flag, find_index-le, Bool-cases,
}
use ship_server.Items.{Item, no_item, has_id}
use ship_server.Lobby.{type_lobby}
use ship_server.Subcmd.{ItemTypes, is_kind, unequip_units}
use ship_server.Subcmd.Wear.{
  Bag, WearPacket, place_of, refuses, handle_bb_equip, handle_bb_unequip, handle_bb_medic,
}

abbrev is_worn : Item → Bool
is_worn it = has_flag it.flags 8

-- The entry is not a unit that is worn.
abbrev IsOff : ItemTypes → Item → Type 0
IsOff types it = (is_kind types.guard types.unit it && is_worn it) ≡ false

unequip_units-IsOff :
    (types : ItemTypes) (n : ℕ) (xs : List Item)
    → All (IsOff types) (take n (unequip_units types n xs))
unfolding unequip_units
unequip_units-IsOff types zero xs = tt
unequip_units-IsOff types (suc n) [] = tt
unequip_units-IsOff types (suc n) (x ∷ xs) = (first, unequip_units-IsOff types n xs)
  where
    first :
        IsOff types (
          if is_kind types.guard types.unit x then record x { flags = clear_flag x.flags 8 } else x)
    first = elim (Bool-cases (is_kind types.guard types.unit x)) [
      | inl e ↦ rw e (rw e (ground arith))
      | inr e ↦ rw e (rw e refl)
    ]

-- An entry that is not worn stays so.
unequip_units-keeps_off :
    (types : ItemTypes) (n i : ℕ) (xs : List Item)
    → is_worn (get_or xs i no_item) ≡ false
    → is_worn (get_or (unequip_units types n xs) i no_item) ≡ false
unfolding unequip_units
unequip_units-keeps_off types n i [] e = e
unequip_units-keeps_off types zero i (x ∷ xs) e = e
unequip_units-keeps_off types (suc n) zero (x ∷ xs) e =
    elim (Bool-cases (is_kind types.guard types.unit x)) [
      | inl k ↦ rw k (ground arith)
      | inr k ↦ rw k e
    ]
unequip_units-keeps_off types (suc n) (suc i) (x ∷ xs) e = unequip_units-keeps_off types n i xs e

get_or-set : (xs : List Item) (i : ℕ) (v : Item) → i < length xs → get_or (set xs i v) i no_item ≡ v
get_or-set [] i v lt = elim lt [ ]
get_or-set (x ∷ xs) zero v lt = refl
get_or-set (x ∷ xs) (suc i) v lt = get_or-set xs i v (omega arith)

-- The item that the packet names, before or after.
abbrev named : Bag → WearPacket → Bag → Item
named b pkt b' = get_or b'.player.items (place_of b.player pkt.item_id) no_item

-- What taking an item off leaves.
abbrev pub IsTakenOff : ItemTypes → Bag → WearPacket → ℤ → ℤ × Bag → Type 0
IsTakenOff types b pkt sent (code, b') =
    ((code ≡ neg 1) × (b' ≡ b))
    ⊎ ((code ≡ sent)
        × (is_worn (named b pkt b') ≡ false)
        × (is_kind types.guard types.frame (named b pkt b) ≡ true
            → All (IsOff types) (take b.player.item_count b'.player.items)))

-- Taking an item off either returns -1 and changes nothing, or leaves the item that the packet names
-- not worn and, if it is a frame, no unit of the inventory worn. The entries in use lie in the array.
pub handle_bb_unequip-IsTakenOff :
    (types : ItemTypes) (sent : ℤ) (b : Bag) (pkt : WearPacket)
    → b.player.item_count ≤ length b.player.items
    → IsTakenOff types b pkt sent (handle_bb_unequip types sent b pkt)
unfolding handle_bb_unequip
handle_bb_unequip-IsTakenOff types sent b pkt le =
    let p = b.player in
    let i = place_of p pkt.item_id in
    let it = get_or p.items i no_item in
    let it' : Item = record it { flags = clear_flag it.flags 8 } in
    let off : is_worn it' ≡ false = ground arith in
    elim (Bool-cases (refuses b pkt)) [
      | inl e1 ↦ rw e1 (inl (refl, refl))
      | inr e1 ↦ rw e1 (elim (Bool-cases (i == p.item_count)) [
        | inl e2 ↦ rw e2 (inl (refl, refl))
        | inr e2 ↦
            let lt : i < length p.items =
              ground (arith, find_index-le (has_id pkt.item_id) p.item_count p.items) in
            let off' : is_worn (get_or (set p.items i it') i no_item) ≡ false =
              ap is_worn (get_or-set p.items i it' lt) ∙ off in
            rw e2 (elim (Bool-cases (is_kind types.guard types.frame it)) [
              | inl e3 ↦ rw e3 (
                  inr (
                    refl,
                    unequip_units-keeps_off types p.item_count i (set p.items i it') off',
                    λ h. unequip_units-IsOff types p.item_count (set p.items i it'),
                  ))
              | inr e3 ↦ rw e3 (inr (refl, off', λ h. absurd cc))
            ])
      ])
    ]

-- What putting an item on leaves.
abbrev IsWorn : Bag → WearPacket → ℤ → ℤ × Bag → Type 0
IsWorn b pkt sent (code, b') =
    ((code ≡ neg 1) × (b' ≡ b)) ⊎ ((code ≡ sent) × (is_worn (named b pkt b') ≡ true))

-- Putting an item on either returns -1 and changes nothing, or leaves the item that the packet names
-- worn. The entries in use lie in the array.
handle_bb_equip-IsWorn :
    (sent : ℤ) (b : Bag) (pkt : WearPacket)
    → b.player.item_count ≤ length b.player.items
    → IsWorn b pkt sent (handle_bb_equip sent b pkt)
unfolding handle_bb_equip
handle_bb_equip-IsWorn sent b pkt le =
    let p = b.player in
    let i = place_of p pkt.item_id in
    let it = get_or p.items i no_item in
    let it' : Item = record it { flags = set_flag it.flags 8 } in
    let on : is_worn it' ≡ true = ground arith in
    elim (Bool-cases (refuses b pkt)) [
      | inl e1 ↦ rw e1 (inl (refl, refl))
      | inr e1 ↦ rw e1 (elim (Bool-cases (i == p.item_count)) [
        | inl e2 ↦ rw e2 (inl (refl, refl))
        | inr e2 ↦
            let lt : i < length p.items =
              ground (arith, find_index-le (has_id pkt.item_id) p.item_count p.items) in
            rw e2 (inr (refl, ap is_worn (get_or-set p.items i it' lt) ∙ on))
      ])
    ]

-- The medical center takes ten meseta or, from a purse of fewer than ten, leaves more than four
-- billion: the subtraction is not checked and wraps in 32 bits. Both copies of the purse, if they
-- were equal, stay equal.
handle_bb_medic_lem :
    (sent : ℤ) (b : Bag) (pkt : WearPacket)
    → b.lobby_type ≢ type_lobby
    → pkt.pkt_len ≡ 0x0C
    → pkt.size ≡ 0x01
    → pkt.client_id ≡ b.client_id
    → b.player.meseta < u32
    → b.player.meseta_copy ≡ b.player.meseta
    → let p' = (handle_bb_medic sent b pkt).1.player in
      (p'.meseta_copy ≡ p'.meseta)
      × (((10 ≤ b.player.meseta) × (p'.meseta + 10 ≡ b.player.meseta))
          ⊎ ((b.player.meseta < 10) × (4000000000 < p'.meseta)))
unfolding handle_bb_medic
handle_bb_medic_lem sent b pkt ne e1 e2 e3 lt copy =
    let team : (b.lobby_type == type_lobby) ≡ false = ground arith in
    let good : (pkt.pkt_len == 0x0C && pkt.size == 0x01 && pkt.client_id == b.client_id) ≡ true =
      rw e1 (rw e2 (ground arith)) in
    rw team (
      rw good (
        omega arith,
        elim (Bool-cases (ltb b.player.meseta 10)) [
          | inl few ↦ inr (ground arith, ground arith)
          | inr enough ↦ inl (ground arith, ground arith)
        ],
      ))
