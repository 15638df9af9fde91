-- ===== src/Items/Inventory/Examples.antt =====
-- The inventory's theorems at a small inventory: three Monomates and a Saber.
use ship_server.Base.{
  ℕ, ◌+◌, ◌-◌, ◌≡◌, ◌≢◌, ◌*◌, ◌<◌, refl, List, ◌∷◌, pos, neg, arith, take, replicate, u32_max,
  find_index, close_gap,
}
use ship_server.Items.{Item, no_item, item_is_stackable}
use ship_server.Items.Inventory.{item_remove_from_inv, item_add_to_inv}
use ship_server.Items.Inventory.Spec.{remove, add, reply, entries, holds_id}
use ship_server.Items.Inventory.Distinct.{Distinct}
use ship_server.Items.Inventory.Valid.{IsValid}
use ship_server.Items.Inventory.Refine.{item_remove_from_inv-refines, item_add_to_inv-refines}
use ship_server.Items.Inventory.Units.{units}

abbrev monomates : ℕ → ℕ → Item
monomates n id = record no_item { data_l0 = 3; data_l1 = 256 * n; item_id = id }

abbrev saber : ℕ → Item
saber id = record no_item { data_l0 = 256; item_id = id }

abbrev held : List Item
held = monomates 3 7 ∷ saber 8 ∷ replicate 28 no_item

held-Distinct : Distinct (take 2 held)
unfolding holds_id
held-Distinct = (refl, (refl, tt))

held-IsValid : IsValid 2 held
held-IsValid = record { size = refl; within = omega arith; distinct = held-Distinct }

-- Two of the three Monomates go, then the Saber.
test-remove_part :
    item_remove_from_inv held 2 7 2 ≡ (pos 0, monomates 1 7 ∷ saber 8 ∷ replicate 28 no_item)
unfolding item_remove_from_inv find_index close_gap item_is_stackable
test-remove_part = refl

test-remove_whole : (item_remove_from_inv held 2 7 u32_max).0 ≡ pos 1
unfolding item_remove_from_inv find_index close_gap item_is_stackable
test-remove_whole = refl

test-add_stack :
    item_add_to_inv held 2 (monomates 2 9) ≡ (pos 0, monomates 5 7 ∷ saber 8 ∷ replicate 28 no_item)
unfolding item_add_to_inv find_index item_is_stackable
test-add_stack = refl

test-add_new : (item_add_to_inv held 2 (saber 9)).0 ≡ pos 1
unfolding item_add_to_inv find_index item_is_stackable
test-add_new = refl

item_remove_from_inv-refines_example :
    let (code, inv') = item_remove_from_inv held 2 7 2 in
    (code, take (2 - entries code) inv') ≡ reply (take 2 held) (remove 7 2 (take 2 held))
item_remove_from_inv-refines_example = item_remove_from_inv-refines held 2 7 2 (omega arith)

item_add_to_inv-refines_example :
    let (code, inv') = item_add_to_inv held 2 (saber 9) in
    (code, take (2 + entries code) inv') ≡ add 2 (saber 9) (take 2 held)
item_add_to_inv-refines_example = item_add_to_inv-refines held 2 (saber 9) refl (omega arith)

add_accepts : (item_add_to_inv held 2 (monomates 2 9)).0 ≢ neg 1
unfolding item_add_to_inv find_index item_is_stackable
add_accepts e = cc

add_fits : units 3 (take 2 held) + 2 < 256
unfolding item_is_stackable
add_fits = omega arith
