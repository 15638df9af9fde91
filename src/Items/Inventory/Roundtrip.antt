-- ===== src/Items/Inventory/Roundtrip.antt =====
-- Taking out what was just put in.
use ship_server.Base.{
  ℕ, ◌+◌, ◌-◌, ◌≤◌, ◌≡◌, ap, sym, ◌∙◌, false, List, [], ◌∷◌, ◌++◌, arith, pos, length, take,
  u32_max,
}
use ship_server.Items.{Item}
use ship_server.Items.Inventory.{takes_part, item_remove_from_inv, item_add_to_inv}
use ship_server.Items.Inventory.Spec.{whole, remove, reply, entries, holds_id, add}
use ship_server.Items.Inventory.Refine.{item_remove_from_inv-refines, item_add_to_inv-refines}
use ship_server.Items.Inventory.Valid.{IsValid, item_add_to_inv-IsValid}

remove-append :
    (it : Item) (l : List Item)
    → holds_id it.item_id l ≡ false
    → remove it.item_id u32_max (l ++ (it ∷ [])) ≡ whole l
unfolding holds_id remove takes_part
remove-append it [] h = ground arith
remove-append it (x ∷ xs) h = ground (arith, remove-append it xs)

add_appends :
    (n : ℕ) (it : Item) (l : List Item)
    → (add n it l).0 ≡ pos 1
    → (holds_id it.item_id l ≡ false) × ((add n it l).1 ≡ l ++ (it ∷ []))
unfolding add
add_appends n it l e = ground arith

-- When `item_add_to_inv` gives an item an entry of its own, `item_remove_from_inv` of its id, for
-- the whole item, returns 1 and leaves the entries in use as they were.
item_add-remove :
    {n : ℕ} {inv : List Item} (it : Item)
    → IsValid n inv
    → (item_add_to_inv inv n it).0 ≡ pos 1
    → let (code, inv') =
        item_remove_from_inv (item_add_to_inv inv n it).1 (n + 1) it.item_id u32_max in
      (code ≡ pos 1) × (take n inv' ≡ take n inv)
item_add-remove {n} {inv} it v e = (
  ap (λ p. p.0) back,
  ap (λ k. take k inv'') (omega (arith, ap (λ p. entries p.0) back)) ∙ ap (λ p. p.1) back,
)
  where
    inv' : List Item
    inv' = (item_add_to_inv inv n it).1

    refined :
        ((item_add_to_inv inv n it).0, take (n + entries (item_add_to_inv inv n it).0) inv')
        ≡ add n it (take n inv)
    refined = item_add_to_inv-refines inv n it v.size v.within

    appended :
        (holds_id it.item_id (take n inv) ≡ false)
        × ((add n it (take n inv)).1 ≡ take n inv ++ (it ∷ []))
    appended = add_appends n it (take n inv) (sym (ap (λ p. p.0) refined) ∙ e)

    live : take (n + 1) inv' ≡ (add n it (take n inv)).1
    live = ap (λ c. take (n + entries c) inv') (sym e) ∙ ap (λ p. p.1) refined

    valid : IsValid (n + entries (item_add_to_inv inv n it).0) inv'
    valid = item_add_to_inv-IsValid it v

    fits : n + 1 ≤ length inv'
    fits = omega (arith, valid.size, rw e at valid.within)

    inv'' : List Item
    inv'' = (item_remove_from_inv inv' (n + 1) it.item_id u32_max).1

    back :
        (
          (item_remove_from_inv inv' (n + 1) it.item_id u32_max).0,
          take (n + 1 - entries (item_remove_from_inv inv' (n + 1) it.item_id u32_max).0) inv'',
        )
        ≡ reply (take (n + 1) inv') (whole (take n inv))
    back =
        item_remove_from_inv-refines inv' (n + 1) it.item_id u32_max fits
        ∙ ap (reply (take (n + 1) inv')) {y = whole (take n inv)}
            (rw (live, appended.1) (remove-append it (take n inv) appended.0))
