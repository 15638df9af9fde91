-- ===== src/Lobby/Floor/Units.antt =====
-- What lies on the floor, in units of an item code.
use ship_server.Base.{
  ℕ, zero, suc, ◌+◌, ◌≡◌, refl, inl, inr, true, List, [], ◌∷◌, Option, none, some, ◌==◌, ℤ, pos,
  negsuc, arith, All, Bool-cases,
}
use ship_server.Items.{Item}
use ship_server.Items.Inventory.Units.{units, units_of}
use ship_server.Lobby.{Lobby, bb}
use ship_server.Lobby.Floor.{unlink, answer, lobby_add_item2_locked, lobby_remove_item_locked}

module _ {κ} (P : Item → Type κ) (code : ℕ) where
  -- What the search took out satisfies what all items of the queue do, and leaves the other units.
  abbrev Found : List Item → Option (Item × List Item) → Type κ
  Found q none = Unit
  Found q (some (it, q')) = P it × (units code q ≡ units_of code it + units code q')

  Found-cons :
      (i : Item) (q : List Item) (o : Option (Item × List Item))
      → Found q o
      → Found (i ∷ q) (elim o [ none ↦ none | some (it, q') ↦ some (it, i ∷ q') ])
  Found-cons i q none f = tt
  Found-cons i q (some (it, q')) f = (f.0, omega (arith, f.1))

  unlink-Found : (id : ℕ) (q : List Item) → All P q → Found q (unlink id q)
  unfolding unlink
  unlink-Found id [] all = tt
  unlink-Found id (i ∷ q) all = elim (Bool-cases (i.item_id == id)) [
    | inl e ↦ rw e (all.0, refl)
    | inr e ↦ rw e (Found-cons i q (unlink id q) (unlink-Found id q all.1))
  ]

  -- The same for the three answers of `lobby_remove_item_locked` in a Blue Burst team.
  abbrev pub TakesUp : Lobby → ℤ × Item × Lobby → Type κ
  TakesUp l (pos zero, it, l') =
      P it
      × (units code l.item_queue ≡ units_of code it + units code l'.item_queue)
      × (l' ≡ record l { item_queue = l'.item_queue })
  TakesUp l (pos (suc n), it, l') = Unit
  TakesUp l (negsuc n, it, l') = Unit

  pub lobby_remove_item_locked-TakesUp :
      (l : Lobby) (id : ℕ) (rv : Item)
      → l.version ≡ bb
      → All P l.item_queue
      → TakesUp l (lobby_remove_item_locked l id rv)
  unfolding lobby_remove_item_locked
  lobby_remove_item_locked-TakesUp l id rv version all =
      let is_bb : (l.version == bb) ≡ true = ground arith in
      rw is_bb (answered (unlink id l.item_queue) (unlink-Found id l.item_queue all))
    where
      answered : (o : Option (Item × List Item)) → Found l.item_queue o → TakesUp l (answer l o)
      answered none f = tt
      answered (some (it, q)) f = (f.0, f.1, refl)

pub lobby_add_item2_locked-lays :
    (l : Lobby) (it : Item)
    → l.version ≡ bb
    → lobby_add_item2_locked true l it ≡ (some it, record l { item_queue = it ∷ l.item_queue })
unfolding lobby_add_item2_locked
lobby_add_item2_locked-lays l it version =
    let is_bb : (l.version == bb) ≡ true = ground arith in rw is_bb refl
