-- ===== src/Lobby/Floor.antt =====
-- src/lobby.c: the items that lie on the floor of a Blue Burst team.
pub mod Laws
pub mod Units
mod Examples
use ship_server.Base.{
  ℕ, ◌+◌, ◌%◌, Bool, List, [], ◌∷◌, Option, none, some, not, ◌==◌, if◌then◌else◌, ℤ, pos, neg, u32,
}
use ship_server.Items.{Item, no_item}
use ship_server.Lobby.{Lobby, bb}

-- The four words of `item_data`.
pub record ItemData : Type 0 where
  pub d0 : ℕ
  pub d1 : ℕ
  pub d2 : ℕ
  pub d3 : ℕ

abbrev pub no_such_item : ℕ
no_such_item = 0xFFFFFF

-- `none` is NULL; `alloc` says whether the allocation succeeds.
pub lobby_add_item_locked : Bool → Lobby → ItemData → Option Item × Lobby
lobby_add_item_locked alloc l d =
    let item : Item = record no_item {
      item_id = l.item_id;
      data_l0 = d.d0;
      data_l1 = d.d1;
      data_l2 = d.d2;
      data2_l = d.d3;
    } in
    if not (l.version == bb)
    then (none, l)
    else if not alloc
    then (none, l)
    else (some item, record l { item_id = (l.item_id + 1) % u32; item_queue = item ∷ l.item_queue })

pub lobby_add_item2_locked : Bool → Lobby → Item → Option Item × Lobby
lobby_add_item2_locked alloc l it =
    if not (l.version == bb)
    then (none, l)
    else if not alloc
    then (none, l)
    else (some it, record l { item_queue = it ∷ l.item_queue })

-- The first entry with the id, and the queue without it.
pub unlink : ℕ → List Item → Option (Item × List Item)
unlink id [] = none
unlink id (i ∷ q) =
    let rest : Option (Item × List Item) = elim (unlink id q) [
      | none ↦ none
      | some (it, q') ↦ some (it, i ∷ q')
    ] in
    if i.item_id == id then some (i, q) else rest

-- The item and the lobby from what the search found.
abbrev pub answer : Lobby → Option (Item × List Item) → ℤ × Item × Lobby
answer l none = (pos 1, record no_item { data_l0 = no_such_item }, l)
answer l (some (it, q)) = (pos 0, it, record l { item_queue = q })

-- 0 and the item, 1 and an item of no kind if there is none, or -1 with `rv` as it was.
pub lobby_remove_item_locked : Lobby → ℕ → Item → ℤ × Item × Lobby
unfolding unlink
lobby_remove_item_locked l item_id rv =
    if not (l.version == bb) then (neg 1, rv, l) else answer l (unlink item_id l.item_queue)
