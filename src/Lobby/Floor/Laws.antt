-- ===== src/Lobby/Floor/Laws.antt =====
-- Putting items on the floor and picking them up.
use ship_server.Base.{
  ℕ, ◌+◌, ◌≤◌, ◌<◌, ◌≡◌, ◌≢◌, refl, ◌⊎◌, inl, inr, true, List, [], ◌∷◌, Option, none, some, ◌==◌,
  pos, u32, arith, All, ==_refl, ==→eq, Bool-cases,
}
use mathlib.Core.List.{Perm}
use mathlib.Core.List.Perm
use ship_server.Items.{Item, no_item}
use ship_server.Lobby.{Lobby, bb}
use ship_server.Lobby.Floor.{
  ItemData, no_such_item, lobby_add_item_locked, lobby_add_item2_locked, unlink, answer,
  lobby_remove_item_locked,
}

-- What was put on the floor of a Blue Burst team last is what its id picks up, whatever else lies
-- there, and the floor is then as before.
pub lobby_add_item2-remove :
    (l : Lobby) (it rv : Item)
    → l.version ≡ bb
    → lobby_remove_item_locked (lobby_add_item2_locked true l it).1 it.item_id rv ≡ (pos 0, it, l)
unfolding lobby_add_item2_locked lobby_remove_item_locked
lobby_add_item2-remove l it rv e = ground (arith, ==_refl it.item_id)

-- The ids on the floor lie below the next id that the team gives out.
abbrev pub IsFresh : Lobby → Type 0
IsFresh l = All (λ it. it.item_id < l.item_id) l.item_queue

below_mono :
    (n m : ℕ) (q : List Item) → n ≤ m → All (λ it. it.item_id < n) q → All (λ it. it.item_id < m) q
below_mono n m [] le h = tt
below_mono n m (it ∷ q) le h = (omega (arith, h.0), below_mono n m q le h.1)

unlink-absent : (n : ℕ) (q : List Item) → All (λ it. it.item_id < n) q → unlink n q ≡ none
unfolding unlink
unlink-absent n [] h = refl
unlink-absent n (it ∷ q) h = ground (arith, unlink-absent n q h.1)

-- `lobby_add_item_locked` gives an item an id that nothing on the floor has, below 2^32 - 1 items,
-- and the ids on the floor stay below the next one.
lobby_add_item_locked-IsFresh :
    (l : Lobby) (d : ItemData) (rv : Item)
    → l.version ≡ bb
    → IsFresh l
    → l.item_id + 1 < u32
    → let (item, l') = lobby_add_item_locked true l d in
      IsFresh l'
      × ((lobby_remove_item_locked l l.item_id rv).0 ≡ pos 1)
      × (item
          ≡ some (record no_item {
            item_id = l.item_id;
            data_l0 = d.d0;
            data_l1 = d.d1;
            data_l2 = d.d2;
            data2_l = d.d3;
          }))
unfolding lobby_add_item_locked lobby_remove_item_locked
lobby_add_item_locked-IsFresh l d rv e f h =
    let is_bb : (l.version == bb) ≡ true = ground arith in
    rw (is_bb, unlink-absent l.item_id l.item_queue f)
      ((omega arith, below_mono l.item_id _ l.item_queue (omega arith) f), refl, refl)

-- What the search took out has the id, and with the rest makes up the queue.
abbrev Unlinked : ℕ → List Item → Option (Item × List Item) → Type 0
Unlinked id q none = All (λ it. it.item_id ≢ id) q
Unlinked id q (some (it, q')) = Perm q (it ∷ q') × (it.item_id ≡ id)

Unlinked-cons :
    (id : ℕ) (i : Item) (q : List Item) (o : Option (Item × List Item))
    → i.item_id ≢ id
    → Unlinked id q o
    → Unlinked id (i ∷ q) (elim o [ none ↦ none | some (it, q') ↦ some (it, i ∷ q') ])
Unlinked-cons id i q none ne u = (ne, u)
Unlinked-cons id i q (some (it, q')) ne u = (Perm.trans (Perm.cons i u.0) (Perm.swap it i q'), u.1)

unlink-Unlinked : (id : ℕ) (q : List Item) → Unlinked id q (unlink id q)
unfolding unlink
unlink-Unlinked id [] = tt
unlink-Unlinked id (i ∷ q) = elim (Bool-cases (i.item_id == id)) [
  | inl e ↦ rw e (Perm.refl (i ∷ q), ==→eq _ _ e)
  | inr e ↦ rw e (Unlinked-cons id i q (unlink id q) (λ x. ground arith) (unlink-Unlinked id q))
]

-- `lobby_remove_item_locked` in a Blue Burst team either hands out an item of that id, which with
-- the items that stay is what lay there, or finds no such item, answers 1 and leaves all as it is.
lobby_remove_item_locked-perm :
    (l : Lobby) (id : ℕ) (rv : Item)
    → l.version ≡ bb
    → let (code, it, l') = lobby_remove_item_locked l id rv in
      ((code ≡ pos 0) × (it.item_id ≡ id) × Perm l.item_queue (it ∷ l'.item_queue))
      ⊎ ((code ≡ pos 1)
          × (it.data_l0 ≡ no_such_item)
          × (l' ≡ l)
          × All (λ i. i.item_id ≢ id) l.item_queue)
unfolding lobby_remove_item_locked
lobby_remove_item_locked-perm l id rv e =
    let is_bb : (l.version == bb) ≡ true = ground arith in
    rw is_bb (outcome (unlink id l.item_queue) (unlink-Unlinked id l.item_queue))
  where
    outcome :
        (o : Option (Item × List Item))
        → Unlinked id l.item_queue o
        → let (code, it, l') = answer l o in
          ((code ≡ pos 0) × (it.item_id ≡ id) × Perm l.item_queue (it ∷ l'.item_queue))
          ⊎ ((code ≡ pos 1)
              × (it.data_l0 ≡ no_such_item)
              × (l' ≡ l)
              × All (λ i. i.item_id ≢ id) l.item_queue)
    outcome none u = inr (refl, refl, refl, u)
    outcome (some (it, q)) u = inl (refl, u.1, u.0)
