-- ===== src/Items/Inventory/Distinct.antt =====
-- Distinct ids on the list operations of `Spec`: neither operation makes two items of one id.
use ship_server.Base.{
  ℕ, ◌+◌, ◌≤◌, ◌≡◌, refl, ap, ◌∙◌, inl, inr, true, false, List, [], ◌∷◌, ◌++◌, arith, Option, some,
  none, ◌==◌, if◌then◌else◌, ℤ, pos, Bool-cases, ==→eq,
}
use mathlib.Core.Option
use ship_server.Items.{Item, item_is_stackable}
use ship_server.Items.Inventory.{takes_part}
use ship_server.Items.Inventory.Spec.{
  Removed, absent, part, whole, keep, remove, reply, entries, holds_id, merge, or_append, add,
}

-- No two items have one id.
abbrev pub Distinct : List Item → Type 0
Distinct [] = Unit
Distinct (x ∷ xs) = (holds_id x.item_id xs ≡ false) × Distinct xs

abbrev pub left : List Item → Removed → List Item
left l r = (reply l r).1

pub left-keep : (x : Item) (l : List Item) (r : Removed) → left (x ∷ l) (keep x r) ≡ x ∷ left l r
left-keep x l absent = refl
left-keep x l (part _) = refl
left-keep x l (whole _) = refl

-- A removal brings no id in.
holds_id-remove :
    (j id amt : ℕ) (l : List Item)
    → holds_id j l ≡ false
    → holds_id j (left l (remove id amt l)) ≡ false
unfolding holds_id remove
holds_id-remove j id amt [] h = refl
holds_id-remove j id amt (x ∷ xs) h =
    ground (arith, holds_id-remove j id amt xs, left-keep x xs (remove id amt xs))

pub remove-Distinct :
    (id amt : ℕ) (l : List Item) → Distinct l → Distinct (left l (remove id amt l))
unfolding holds_id remove
remove-Distinct id amt [] h = tt
remove-Distinct id amt (x ∷ xs) h = elim (Bool-cases (x.item_id == id)) [
  | inl e ↦ ground arith
  | inr e ↦
      rw e (rw left-keep (holds_id-remove x.item_id id amt xs h.0, remove-Distinct id amt xs h.1))
]

pub remove-absent : (id amt : ℕ) (l : List Item) → holds_id id l ≡ false → remove id amt l ≡ absent
unfolding holds_id remove
remove-absent id amt [] h = refl
remove-absent id amt (x ∷ xs) h = ground (arith, remove-absent id amt xs)

-- The id is not among the items that a whole removal leaves.
abbrev Gone : ℕ → Removed → Type 0
Gone id absent = Unit
Gone id (part _) = Unit
Gone id (whole l) = holds_id id l ≡ false

Gone-keep :
    (id : ℕ) (x : Item) (r : Removed) → (x.item_id == id) ≡ false → Gone id r → Gone id (keep x r)
unfolding holds_id
Gone-keep id x absent e g = tt
Gone-keep id x (part _) e g = tt
Gone-keep id x (whole l) e g = rw e g

pub remove-Gone : (id amt : ℕ) (l : List Item) → Distinct l → Gone id (remove id amt l)
unfolding remove
remove-Gone id amt [] h = tt
remove-Gone id amt (x ∷ xs) h = elim (Bool-cases (x.item_id == id)) [
  | inl e ↦ rw e (elim (Bool-cases (takes_part x amt)) [
    | inl t ↦ rw t tt
    | inr t ↦ rw t (rw (==→eq x.item_id id e) at h.0)
  ])
  | inr e ↦ rw e (Gone-keep id x (remove id amt xs) e (remove-Gone id amt xs h.1))
]

pub Gone-of_reply :
    (id : ℕ) (l l' : List Item) (code : ℤ) (r : Removed)
    → Gone id r
    → (code, l') ≡ reply l r
    → code ≡ pos 1
    → holds_id id l' ≡ false
Gone-of_reply id l l' code absent g e c = cc
Gone-of_reply id l l' code (part _) g e c = ground arith
Gone-of_reply id l l' code (whole m) g e c = rw (ap (λ p. p.1) e) g

-- The items after a merge, if it found a stack.
abbrev merged : List Item → Option (List Item) → List Item
merged l none = l
merged l (some l') = l'

merged-map :
    (x : Item) (l : List Item) (o : Option (List Item))
    → merged (x ∷ l) (Option.map (λ r. x ∷ r) o) ≡ x ∷ merged l o
merged-map x l none = refl
merged-map x l (some _) = refl

holds_id-merge :
    (j : ℕ) (it : Item) (l : List Item) → holds_id j (merged l (merge it l)) ≡ holds_id j l
unfolding holds_id merge
holds_id-merge j it [] = refl
holds_id-merge j it (x ∷ xs) = elim (Bool-cases (x.data_l0 == it.data_l0)) [
  | inl e ↦ rw e refl
  | inr e ↦ rw e (rw (merged-map x xs (merge it xs), holds_id-merge j it xs) refl)
]

merge-Distinct : (it : Item) (l : List Item) → Distinct l → Distinct (merged l (merge it l))
unfolding merge
merge-Distinct it [] h = tt
merge-Distinct it (x ∷ xs) h = elim (Bool-cases (x.data_l0 == it.data_l0)) [
  | inl e ↦ rw e h
  | inr e ↦ rw e (
      rw (merged-map x xs (merge it xs))
        (holds_id-merge x.item_id it xs ∙ h.0, merge-Distinct it xs h.1))
]

holds_id-append :
    (j : ℕ) (l : List Item) (it : Item)
    → holds_id j (l ++ (it ∷ [])) ≡ (if it.item_id == j then true else holds_id j l)
unfolding holds_id
holds_id-append j [] it = refl
holds_id-append j (x ∷ xs) it = ground (arith, holds_id-append j xs it)

append-Distinct :
    (l : List Item) (it : Item)
    → holds_id it.item_id l ≡ false
    → Distinct l
    → Distinct (l ++ (it ∷ []))
unfolding holds_id
append-Distinct [] it e h = (refl, tt)
append-Distinct (x ∷ xs) it e h =
    (ground (arith, holds_id-append x.item_id xs it), append-Distinct xs it (ground arith) h.1)

or_append-Distinct :
    (it : Item) (l : List Item) (o : Option (List Item))
    → holds_id it.item_id l ≡ false
    → Distinct l
    → Distinct (merged l o)
    → Distinct (or_append it l o).1
or_append-Distinct it l none e h k = append-Distinct l it e h
or_append-Distinct it l (some l') e h k = k

pub add-Distinct : (n : ℕ) (it : Item) (l : List Item) → Distinct l → Distinct (add n it l).1
unfolding add
add-Distinct n it l h = elim (Bool-cases (n == 30)) [
  | inl e ↦ rw e h
  | inr e ↦ rw e (elim (Bool-cases (holds_id it.item_id l)) [
    | inl k ↦ rw k h
    | inr k ↦ rw k (elim (Bool-cases (item_is_stackable it.data_l0)) [
      | inl t ↦ rw t (or_append-Distinct it l (merge it l) k h (merge-Distinct it l h))
      | inr t ↦ rw t (append-Distinct l it k h)
    ])
  ])
]

pub add_within : (n : ℕ) (it : Item) (l : List Item) → n ≤ 30 → n + entries (add n it l).0 ≤ 30
unfolding add
add_within n it l h = ground arith
