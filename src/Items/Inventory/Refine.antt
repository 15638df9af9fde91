-- ===== src/Items/Inventory/Refine.antt =====
-- The array operations of src/items.c refine the list operations of `Spec`.
use ship_server.Base.{
  ℕ, zero, suc, ◌+◌, ◌-◌, ◌≤◌, ◌≡◌, refl, inl, inr, List, [], ◌∷◌, arith, Option, some, none, ltb,
  ◌==◌, if◌then◌else◌, length, take, get_or, set, find_index, close_gap, take-shift_down,
  find_index-le, take-set_end, Bool-cases,
}
use ship_server.Items.{Item, no_item, amount, with_amount, has_id, same_code}
use ship_server.Items.Inventory.{takes_part, item_remove_from_inv, item_add_to_inv}
use ship_server.Items.Inventory.Spec.{
  Removed, absent, part, whole, keep, remove, reply, entries, holds_id, merge, add,
}

-- The outcome that the array code reaches from the index i of the search.
abbrev found_at : ℕ → ℕ → List Item → ℕ → Removed
found_at amt n xs i =
    if i == n
    then absent
    else if takes_part (get_or xs i no_item) amt
    then part
        (take n (set xs i (with_amount (get_or xs i no_item) (amount (get_or xs i no_item) - amt))))
    else whole (take (n - 1) (close_gap i (n - i - 1) xs))

found_at-suc :
    (amt n i : ℕ) (x : Item) (xs : List Item)
    → i ≤ n
    → found_at amt (suc n) (x ∷ xs) (suc i) ≡ keep x (found_at amt n xs i)
unfolding close_gap
found_at-suc amt zero i x xs h = ground arith
found_at-suc amt (suc n) i x xs h = ground arith

remove-eq-found_at :
    (id amt n : ℕ) (xs : List Item)
    → n ≤ length xs
    → remove id amt (take n xs) ≡ found_at amt n xs (find_index (has_id id) n xs)
unfolding remove find_index close_gap
remove-eq-found_at id amt zero xs h = refl
remove-eq-found_at id amt (suc n) [] h = absurd (omega arith)
remove-eq-found_at id amt (suc n) (x ∷ xs) h = elim (Bool-cases (x.item_id == id)) [
  | inl e ↦ ground (arith, take-shift_down n x xs)
  | inr e ↦ rw e (
      ground (
        arith,
        remove-eq-found_at id amt n xs,
        found_at-suc amt n (find_index (has_id id) n xs) x xs,
        find_index-le (has_id id) n xs,
      ))
]

-- `item_remove_from_inv` on an array with n entries in use does to those entries what the list
-- operation does, with its return code: -1 and no change for an unknown id, 0 for a smaller stack,
-- 1 when the entry goes and the later ones move up.
pub item_remove_from_inv-refines :
    (inv : List Item) (n id amt : ℕ)
    → n ≤ length inv
    → let (code, inv') = item_remove_from_inv inv n id amt in
      (code, take (n - entries code) inv') ≡ reply (take n inv) (remove id amt (take n inv))
unfolding item_remove_from_inv
item_remove_from_inv-refines inv n id amt h = rw (remove-eq-found_at id amt n inv h) (ground arith)

holds_id-find_index :
    (id n : ℕ) (xs : List Item)
    → n ≤ length xs
    → holds_id id (take n xs) ≡ ltb (find_index (has_id id) n xs) n
unfolding holds_id find_index
holds_id-find_index id zero xs h = ground arith
holds_id-find_index id (suc n) [] h = absurd (omega arith)
holds_id-find_index id (suc n) (x ∷ xs) h = ground (arith, holds_id-find_index id n xs)

abbrev merged_at : Item → ℕ → List Item → ℕ → Option (List Item)
merged_at it n xs i =
    if ltb i n
    then some (
        take n
          (set xs i (with_amount (get_or xs i no_item) (amount (get_or xs i no_item) + amount it))))
    else none

merge-find_index :
    (it : Item) (n : ℕ) (xs : List Item)
    → n ≤ length xs
    → merge it (take n xs) ≡ merged_at it n xs (find_index (same_code it) n xs)
unfolding merge find_index
merge-find_index it zero xs h = ground arith
merge-find_index it (suc n) [] h = absurd (omega arith)
merge-find_index it (suc n) (x ∷ xs) h = ground (arith, merge-find_index it n xs)

-- `item_add_to_inv` on an array of 30 with n entries in use does to those entries what the list
-- operation does: -1 and no change at 30 entries or a known id, 0 when a stack of the same code
-- takes the amount, 1 when the item is appended.
pub item_add_to_inv-refines :
    (inv : List Item) (n : ℕ) (it : Item)
    → length inv ≡ 30
    → n ≤ 30
    → let (code, inv') = item_add_to_inv inv n it in
      (code, take (n + entries code) inv') ≡ add n it (take n inv)
unfolding item_add_to_inv add
item_add_to_inv-refines inv n it h le =
    ground (
      arith,
      holds_id-find_index it.item_id n inv,
      merge-find_index it n inv,
      take-set_end inv n it,
    )
