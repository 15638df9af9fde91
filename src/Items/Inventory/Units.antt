-- ===== src/Items/Inventory/Units.antt =====
-- How many units of each item code an inventory holds, and that the operations account for them.
use mathlib.Core.Option
use ship_server.Base.{
  ℕ, ◌+◌, ◌-◌, ◌<◌, ◌≡◌, ◌≢◌, ==→eq, ==_refl, refl, ap, ◌∙◌, inl, inr, true, List, [], ◌∷◌, ◌++◌,
  arith, Option, some, none, ◌==◌, if◌then◌else◌, neg, ℤ, pos, negsuc, ltb, find_index, take,
  Bool-cases,
}
use ship_server.Items.{Item, amount, with_amount, item_is_stackable, has_id, same_code}
use ship_server.Items.Inventory.{takes_part, add_stack, item_remove_from_inv, item_add_to_inv}
use ship_server.Items.Inventory.Spec.{remove, entries, merge, or_append, add}
use ship_server.Items.Inventory.Refine.{item_remove_from_inv-refines, item_add_to_inv-refines}
use ship_server.Items.Inventory.Distinct.{left, left-keep}
use ship_server.Items.Inventory.Valid.{IsValid}

-- A stack counts its amount, any other item counts one.
abbrev weight : Item → ℕ
weight x = if item_is_stackable x.data_l0 then amount x else 1

abbrev pub units_of : ℕ → Item → ℕ
units_of code x = if x.data_l0 == code then weight x else 0

abbrev pub units : ℕ → List Item → ℕ
units code [] = 0
units code (x ∷ xs) = units_of code x + units code xs

-- The item that an id names.
unfoldable pub item_with : ℕ → List Item → Option Item
item_with id [] = none
item_with id (x ∷ xs) = if x.item_id == id then some x else item_with id xs

-- What a removal of `amt` takes from an item: `amt` from a larger stack, else all of it.
abbrev pub taken : Item → ℕ → ℕ
taken x amt = if takes_part x amt then amt else weight x

units-part :
    (code amt : ℕ) (x : Item)
    → takes_part x amt ≡ true
    → units_of code (with_amount x (amount x - amt)) + (if x.data_l0 == code then amt else 0)
      ≡ units_of code x
unfolding takes_part
units-part code amt x h = ground arith

-- What a removal of `amt` takes away of a code, by the item that the id names.
abbrev pub taken_of : ℕ → ℕ → Option Item → ℕ
taken_of code amt none = 0
taken_of code amt (some x) = if x.data_l0 == code then taken x amt else 0

units-remove :
    (code id amt : ℕ) (l : List Item)
    → units code (left l (remove id amt l)) + taken_of code amt (item_with id l) ≡ units code l
unfolding item_with remove
units-remove code id amt [] = omega arith
units-remove code id amt (x ∷ xs) = elim (Bool-cases (x.item_id == id)) [
  | inl e ↦ rw e (elim (Bool-cases (takes_part x amt)) [
    | inl t ↦ rw t (omega (arith, units-part code amt x t))
    | inr t ↦ rw t (ground arith)
  ])
  | inr e ↦
      rw e (rw (left-keep x xs (remove id amt xs)) (omega (arith, units-remove code id amt xs)))
]

-- `item_remove_from_inv` takes from the inventory's units of every code exactly what the removed
-- item held of it: `amt` of a larger stack, all of a smaller one, one of an item that does not
-- stack, and nothing if no item has the id.
pub item_remove_from_inv-units :
    {n : ℕ} {inv : List Item} (code id amt : ℕ)
    → IsValid n inv
    → let (r, inv') = item_remove_from_inv inv n id amt in
      units code (take (n - entries r) inv') + taken_of code amt (item_with id (take n inv))
      ≡ units code (take n inv)
item_remove_from_inv-units {n} {inv} code id amt v =
    rw (ap (λ p. p.1) (item_remove_from_inv-refines inv n id amt (omega (arith, v.size, v.within))))
      (units-remove code id amt (take n inv))

units-append :
    (code : ℕ) (l : List Item) (it : Item)
    → units code (l ++ (it ∷ [])) ≡ units code l + units_of code it
units-append code [] it = omega arith
units-append code (x ∷ xs) it = omega (arith, units-append code xs it)

or_append-map :
    (it x : Item) (l : List Item) (o : Option (List Item))
    → (or_append it (x ∷ l) (Option.map (λ r. x ∷ r) o)).1 ≡ x ∷ (or_append it l o).1
or_append-map it x l none = refl
or_append-map it x l (some _) = refl

units-stacked :
    (code : ℕ) (x it : Item)
    → item_is_stackable it.data_l0 ≡ true
    → (x.data_l0 == it.data_l0) ≡ true
    → amount x + amount it < 256
    → units_of code (with_amount x (amount x + amount it)) ≡ units_of code x + units_of code it
units-stacked code x it t e h = rw (==→eq x.data_l0 it.data_l0 e, t) (ground arith)

units_of-stack :
    (x it : Item)
    → item_is_stackable it.data_l0 ≡ true
    → (x.data_l0 == it.data_l0) ≡ true
    → units_of it.data_l0 x ≡ amount x
units_of-stack x it t e = rw (==→eq x.data_l0 it.data_l0 e, t, ==_refl it.data_l0) refl

units-merge :
    (code : ℕ) (it : Item) (l : List Item)
    → item_is_stackable it.data_l0 ≡ true
    → units it.data_l0 l + amount it < 256
    → units code (or_append it l (merge it l)).1 ≡ units code l + units_of code it
unfolding merge
units-merge code it [] t h = omega arith
units-merge code it (x ∷ xs) t h = elim (Bool-cases (x.data_l0 == it.data_l0)) [
  | inl e ↦
      rw e (omega (arith, units-stacked code x it t e (omega (arith, units_of-stack x it t e))))
  | inr e ↦ rw e (
      rw (or_append-map it x xs (merge it xs))
        (omega (arith, units-merge code it xs t (omega arith))))
]

units-add :
    (code n : ℕ) (it : Item) (l : List Item)
    → units it.data_l0 l + amount it < 256
    → (add n it l).0 ≢ neg 1
    → units code (add n it l).1 ≡ units code l + units_of code it
unfolding add
units-add code n it l h ne = ground (arith, units-merge code it l, units-append code l it)

-- `item_add_to_inv`, when it accepts an item, adds exactly that item's units: one for an item that
-- does not stack, its amount for a stack, if the stacks of its code and the new one together hold
-- fewer than 256.
pub item_add_to_inv-units :
    {n : ℕ} {inv : List Item} (code : ℕ) (it : Item)
    → IsValid n inv
    → units it.data_l0 (take n inv) + amount it < 256
    → (item_add_to_inv inv n it).0 ≢ neg 1
    → let (r, inv') = item_add_to_inv inv n it in
      units code (take (n + entries r) inv') ≡ units code (take n inv) + units_of code it
item_add_to_inv-units {n} {inv} code it v h ne =
    rw (ap (λ p. p.1) refined)
      (units-add code n it (take n inv) h (λ e. ne (ap (λ p. p.0) refined ∙ e)))
  where
    refined :
        (
          (item_add_to_inv inv n it).0,
          take (n + entries (item_add_to_inv inv n it).0) (item_add_to_inv inv n it).1,
        )
        ≡ add n it (take n inv)
    refined = item_add_to_inv-refines inv n it v.size v.within

-- A refusal is -1 and leaves the array as it was.
abbrev pub Refuses : List Item → ℤ × List Item → Type 0
Refuses inv (pos n, items) = Unit
Refuses inv (negsuc n, items) = (negsuc n ≡ neg 1) × (items ≡ inv)

add_stack-Refuses :
    (inv : List Item) (n : ℕ) (it : Item) (i : ℕ) → Refuses inv (add_stack inv n it i)
unfolding add_stack
add_stack-Refuses inv n it i = elim (Bool-cases (ltb i n)) [ inl e ↦ rw e tt | inr e ↦ rw e tt ]

pub item_add_to_inv-Refuses :
    (inv : List Item) (n : ℕ) (it : Item) → Refuses inv (item_add_to_inv inv n it)
unfolding item_add_to_inv
item_add_to_inv-Refuses inv n it = elim (Bool-cases (n == 30)) [
  | inl e1 ↦ rw e1 (refl, refl)
  | inr e1 ↦ rw e1 (elim (Bool-cases (ltb (find_index (has_id it.item_id) n inv) n)) [
    | inl e2 ↦ rw e2 (refl, refl)
    | inr e2 ↦ rw e2 (elim (Bool-cases (item_is_stackable it.data_l0)) [
      | inl e3 ↦ rw e3 (add_stack-Refuses inv n it (find_index (same_code it) n inv))
      | inr e3 ↦ rw e3 tt
    ])
  ])
]
