-- ===== src/Items/Inventory/Spec.antt =====
-- What an inventory is to its clients: the list of the items in use, with no array behind it.
use ship_server.Base.{
  ℕ, ◌+◌, ◌-◌, Bool, List, [], ◌∷◌, ◌++◌, Option, none, some, ◌==◌, if◌then◌else◌, ℤ, pos, negsuc,
  neg,
}
use mathlib.Core.Option
use ship_server.Items.{Item, amount, with_amount, item_is_stackable}
use ship_server.Items.Inventory.{takes_part}

-- What a removal does to the list of items: nothing, a smaller stack, or one item less.
pub data Removed : Type 0 where
  absent : Removed
  part whole : List Item → Removed

abbrev pub keep : Item → Removed → Removed
keep x absent = absent
keep x (part l) = part (x ∷ l)
keep x (whole l) = whole (x ∷ l)

unfoldable pub remove : ℕ → ℕ → List Item → Removed
remove id amt [] = absent
remove id amt (x ∷ xs) =
    let rest = keep x (remove id amt xs) in
    if x.item_id == id
    then (if takes_part x amt then part (with_amount x (amount x - amt) ∷ xs) else whole xs)
    else rest

-- The return code of the C function, and the items in use after it.
abbrev pub reply : List Item → Removed → ℤ × List Item
reply l absent = (neg 1, l)
reply l (part l') = (pos 0, l')
reply l (whole l') = (pos 1, l')

-- How many entries a return code takes from, or adds to, those in use.
abbrev pub entries : ℤ → ℕ
entries (pos n) = n
entries (negsuc n) = 0

unfoldable pub holds_id : ℕ → List Item → Bool
holds_id id [] = Bool.false
holds_id id (x ∷ xs) = if x.item_id == id then Bool.true else holds_id id xs

-- Adds to the first stack of the same code, if there is one.
unfoldable pub merge : Item → List Item → Option (List Item)
merge it [] = none
merge it (x ∷ xs) =
    let rest = Option.map (λ l. x ∷ l) (merge it xs) in
    if x.data_l0 == it.data_l0 then some (with_amount x (amount x + amount it) ∷ xs) else rest

abbrev pub or_append : Item → List Item → Option (List Item) → ℤ × List Item
or_append it l none = (pos 1, l ++ (it ∷ []))
or_append it l (some l') = (pos 0, l')

-- Adding an item to a list of n items.
unfoldable pub add : ℕ → Item → List Item → ℤ × List Item
add n it l =
    if n == 30
    then (neg 1, l)
    else if holds_id it.item_id l
    then (neg 1, l)
    else if item_is_stackable it.data_l0
    then or_append it l (merge it l)
    else (pos 1, l ++ (it ∷ []))
