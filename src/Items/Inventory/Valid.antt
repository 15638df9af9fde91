-- ===== src/Items/Inventory/Valid.antt =====
-- The invariant of an inventory, and what follows from it for sequences of calls.
use ship_server.Base.{
  ℕ, ◌+◌, ◌-◌, ◌≤◌, ◌≡◌, sym, ap, subst, ◌∙◌, false, List, arith, pos, neg, length, take,
  length-set, length-close_gap, find_index, get_or,
}
use ship_server.Items.{Item, no_item, has_id, same_code, amount, with_amount}
use ship_server.Items.Inventory.{item_remove_from_inv, item_add_to_inv}
use ship_server.Items.Inventory.Spec.{remove, reply, entries, holds_id, add}
use ship_server.Items.Inventory.Refine.{item_remove_from_inv-refines, item_add_to_inv-refines}
use ship_server.Items.Inventory.Distinct.{
  Distinct, remove-Distinct, remove-absent, remove-Gone, Gone-of_reply, add-Distinct, add_within,
}

-- An array of 30 with n entries in use.
pub record IsValid (n : ℕ) (inv : List Item) : Type 0 where
  pub size : length inv ≡ 30
  pub within : n ≤ 30
  pub distinct : Distinct (take n inv)

length-item_remove_from_inv :
    (inv : List Item) (n id amt : ℕ) → length (item_remove_from_inv inv n id amt).1 ≡ length inv
unfolding item_remove_from_inv
length-item_remove_from_inv inv n id amt =
    let i = find_index (has_id id) n inv in
    let it = get_or inv i no_item in
    ground (
      arith,
      length-set inv i (with_amount it (amount it - amt)),
      length-close_gap i (n - i - 1) inv,
    )

-- `item_remove_from_inv` keeps the inventory valid, with as many entries in use as its callers
-- then count.
pub item_remove_from_inv-IsValid :
    {n : ℕ} {inv : List Item} (id amt : ℕ)
    → IsValid n inv
    → let (code, inv') = item_remove_from_inv inv n id amt in IsValid (n - entries code) inv'
item_remove_from_inv-IsValid {n} {inv} id amt v = record {
  size = length-item_remove_from_inv inv n id amt ∙ v.size;
  within = omega (arith, v.within);
  distinct =
      subst Distinct
        (sym (
          ap (λ p. p.1)
            (item_remove_from_inv-refines inv n id amt (omega (arith, v.within, v.size)))))
        (remove-Distinct id amt (take n inv) v.distinct);
}

-- What was removed whole is gone: in the inventory that its callers then have, one entry shorter,
-- a removal of the same id answers -1.
item_remove_from_inv-twice :
    {n : ℕ} {inv : List Item} (id amt later : ℕ)
    → IsValid n inv
    → (item_remove_from_inv inv n id amt).0 ≡ pos 1
    → (item_remove_from_inv (item_remove_from_inv inv n id amt).1 (n - 1) id later).0 ≡ neg 1
item_remove_from_inv-twice {n} {inv} id amt later v e =
    ap (λ p. p.0) (item_remove_from_inv-refines inv' (n - 1) id later fits)
    ∙ ap (λ r. (reply (take (n - 1) inv') r).0) (remove-absent id later (take (n - 1) inv') gone)
  where
    inv' : List Item
    inv' = (item_remove_from_inv inv n id amt).1

    fits : n - 1 ≤ length inv'
    fits = omega (arith, length-item_remove_from_inv inv n id amt, v.size, v.within)

    shrunk : take (n - entries (item_remove_from_inv inv n id amt).0) inv' ≡ take (n - 1) inv'
    shrunk = ap (λ c. take (n - entries c) inv') e

    gone : holds_id id (take (n - 1) inv') ≡ false
    gone = rw (← shrunk) (
        Gone-of_reply id (take n inv) _ _ (remove id amt (take n inv))
          (remove-Gone id amt (take n inv) v.distinct)
          (item_remove_from_inv-refines inv n id amt (omega (arith, v.size, v.within))) e)

length-item_add_to_inv :
    (inv : List Item) (n : ℕ) (it : Item) → length (item_add_to_inv inv n it).1 ≡ length inv
unfolding item_add_to_inv
length-item_add_to_inv inv n it =
    let i = find_index (same_code it) n inv in
    let other = get_or inv i no_item in
    ground
      (arith, length-set inv i (with_amount other (amount other + amount it)), length-set inv n it)

-- `item_add_to_inv` keeps the inventory valid, with as many entries in use as its callers then
-- count.
pub item_add_to_inv-IsValid :
    {n : ℕ} {inv : List Item} (it : Item)
    → IsValid n inv
    → let (code, inv') = item_add_to_inv inv n it in IsValid (n + entries code) inv'
item_add_to_inv-IsValid {n} {inv} it v = record {
  size = length-item_add_to_inv inv n it ∙ v.size;
  within = rw (ap (λ p. p.0) refined) (add_within n it (take n inv) v.within);
  distinct = rw (ap (λ p. p.1) refined) (add-Distinct n it (take n inv) v.distinct);
}
  where
    refined :
        (
          (item_add_to_inv inv n it).0,
          take (n + entries (item_add_to_inv inv n it).0) (item_add_to_inv inv n it).1,
        )
        ≡ add n it (take n inv)
    refined = item_add_to_inv-refines inv n it v.size v.within
