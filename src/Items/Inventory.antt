-- ===== src/Items/Inventory.antt =====
-- src/items.c: `item_remove_from_inv` and `item_add_to_inv`. The array is a list, of which the
-- first `inv_count` entries are in use; what the loop found is handed to a helper.
pub mod Spec
pub mod Refine
pub mod Distinct
pub mod Valid
pub mod Units
pub mod Roundtrip
mod Examples
use ship_server.Base.{
  ℕ, ◌+◌, ◌-◌, Bool, ◌&&◌, not, List, ltb, ◌==◌, if◌then◌else◌, ℤ, pos, neg, u32_max, get_or, set,
  find_index, close_gap,
}
use ship_server.Items.{Item, no_item, amount, with_amount, item_is_stackable, has_id, same_code}

-- Whether a removal of `amt` leaves part of the stack.
unfoldable pub takes_part : Item → ℕ → Bool
takes_part it amt = item_is_stackable it.data_l0 && not (amt == u32_max) && ltb amt (amount it)

remove_at : List Item → ℕ → ℕ → Item → ℕ → ℤ × List Item
unfolding takes_part
remove_at inv inv_count i it amt =
    if takes_part it amt
    then (pos 0, set inv i (with_amount it (amount it - amt)))
    else (pos 1, close_gap i (inv_count - i - 1) inv)

unfoldable pub item_remove_from_inv : List Item → ℕ → ℕ → ℕ → ℤ × List Item
unfolding remove_at
item_remove_from_inv inv inv_count item_id amt =
    let i = find_index (has_id item_id) inv_count inv in
    if i == inv_count then (neg 1, inv) else remove_at inv inv_count i (get_or inv i no_item) amt

add_stack : List Item → ℕ → Item → ℕ → ℤ × List Item
add_stack inv inv_count it i =
    if ltb i inv_count
    then (let other = get_or inv i no_item in
        (pos 0, set inv i (with_amount other (amount other + amount it))))
    else (pos 1, set inv inv_count it)

pub item_add_to_inv : List Item → ℕ → Item → ℤ × List Item
unfolding add_stack
item_add_to_inv inv inv_count it =
    if inv_count == 30
    then (neg 1, inv)
    else if ltb (find_index (has_id it.item_id) inv_count inv) inv_count
    then (neg 1, inv)
    else if item_is_stackable it.data_l0
    then add_stack inv inv_count it (find_index (same_code it) inv_count inv)
    else (pos 1, set inv inv_count it)
