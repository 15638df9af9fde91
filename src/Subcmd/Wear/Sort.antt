-- ===== src/Subcmd/Wear/Sort.antt =====
-- `handle_bb_sort_inv` of src/subcmd.c: a sort that is accepted loses and doubles no item.
use mathlib.Core.List.{Perm}
use mathlib.Core.List.Perm
use ship_server.Base.{
  ℕ, zero, suc, ◌<◌, ◌≤◌, ◌≡◌, ◌⊎◌, inl, inr, refl, ap, sym, subst, ◌∙◌, Bool, true, false, not,
  ◌||◌, List, [], ◌∷◌, ◌++◌, append-nil, ◌==◌, Option, none, some, ℤ, pos, neg, arith, length,
  length-set, length-take, length-append, take-append_all, take, replicate, get_or, set, u32_max,
  find_index, find_index-le, Bool-cases,
}
use ship_server.Items.{Item, no_item, has_id}
use ship_server.Lobby.{type_lobby}
use ship_server.Subcmd.Wear.{Bag, SortPacket, cons_item, sorted, sort_done, handle_bb_sort_inv}

-- The entries that have not been used.
abbrev unused : List Bool → List Item → List Item
unused used [] = []
unused [] (x ∷ xs) = x ∷ unused [] xs
unused (true ∷ us) (x ∷ xs) = unused us xs
unused (false ∷ us) (x ∷ xs) = x ∷ unused us xs

-- Two lists with the same entries, as often, and of the same length.
abbrev Same : List Item → List Item → Type 0
Same xs ys = Perm xs ys × (length xs ≡ length ys)

Same-trans : (xs ys zs : List Item) → Same xs ys → Same ys zs → Same xs zs
Same-trans xs ys zs a b = (Perm.trans a.0 b.0, a.1 ∙ b.1)

-- Marking an entry takes it out of those that have not been used.
unused-set :
    (n j : ℕ) (items : List Item) (used : List Bool)
    → j < n
    → n ≤ length items
    → n ≤ length used
    → get_or used j false ≡ false
    → Same
        (unused used (take n items))
        (get_or items j no_item ∷ unused (set used j true) (take n items))
unused-set zero j items used lt le le' e = elim lt [ ]
unused-set (suc n) j [] used lt le le' e = absurd (omega arith)
unused-set (suc n) j (x ∷ items) [] lt le le' e = absurd (omega arith)
unused-set (suc n) zero (x ∷ items) (true ∷ us) lt le le' e = cc
unused-set (suc n) zero (x ∷ items) (false ∷ us) lt le le' e = (Perm.refl _, refl)
unused-set (suc n) (suc j) (x ∷ items) (true ∷ us) lt le le' e =
    unused-set n j items us (omega arith) (omega arith) (omega arith) e
unused-set (suc n) (suc j) (x ∷ items) (false ∷ us) lt le le' e =
    let (p, len) = unused-set n j items us (omega arith) (omega arith) (omega arith) e in
    (Perm.trans (Perm.cons x p) (Perm.swap (get_or items j no_item) x _), ap suc len)

-- What the loop returns is taken from the entries that were not used.
Draws : List Item → Option (List Item) → Type 0
Draws pool none = Unit
Draws pool (some xs) = (rest : List Item) × Same pool (xs ++ rest)

Draws-cons :
    (pool pool' : List Item) (it : Item) (o : Option (List Item))
    → Same pool (it ∷ pool')
    → Draws pool' o
    → Draws pool (cons_item it o)
unfolding cons_item Draws
Draws-cons pool pool' it none s d = tt
Draws-cons pool pool' it (some xs) s (rest, (p, len)) =
    (rest, (Perm.trans s.0 (Perm.cons it p), s.1 ∙ ap suc len))

sorted-Draws :
    (ids : List ℕ) (items : List Item) (n : ℕ) (used : List Bool)
    → n ≤ length items
    → n ≤ length used
    → Draws (unused used (take n items)) (sorted items n used ids)
unfolding sorted Draws
sorted-Draws [] items n used le le' = (unused used (take n items), (Perm.refl _, refl))
sorted-Draws (id ∷ ids) items n used le le' =
    let j = find_index (has_id id) n items in
    elim (Bool-cases (id == u32_max)) [
      | inl e1 ↦ rw e1 (unused used (take n items), (Perm.refl _, refl))
      | inr e1 ↦ rw e1 (elim (Bool-cases (j == n)) [
        | inl e2 ↦ rw e2 tt
        | inr e2 ↦ rw e2 (elim (Bool-cases (get_or used j false)) [
          | inl e3 ↦ rw e3 tt
          | inr e3 ↦ rw e3 (
              Draws-cons (unused used (take n items)) (unused (set used j true) (take n items))
                (get_or items j no_item) (sorted items n (set used j true) ids)
                (unused-set n j items used (ground (arith, find_index-le (has_id id) n items)) le
                  le' e3)
                (sorted-Draws ids items n (set used j true) le
                  (omega (arith, length-set used j true))))
        ])
      ])
    ]

unused-replicate : (k : ℕ) (xs : List Item) → unused (replicate k false) xs ≡ xs
unused-replicate k [] = refl
unused-replicate zero (x ∷ xs) = ap (λ r. x ∷ r) (unused-replicate zero xs)
unused-replicate (suc k) (x ∷ xs) = ap (λ r. x ∷ r) (unused-replicate k xs)

length-zero : (xs : List Item) → length xs ≡ 0 → xs ≡ []
length-zero [] e = refl
length-zero (x ∷ xs) e = absurd (omega arith)

-- Either the call returns -1 and changes nothing, or it returns 0 and the entries in use are the
-- same ones in another order, in both copies of the inventory.
abbrev pub IsSorted : Bag → ℤ × Bag → Type 0
IsSorted b (code, b') =
    ((code ≡ neg 1) × (b' ≡ b))
    ⊎ ((code ≡ pos 0)
        × Perm (take b.player.item_count b.player.items) (take b.player.item_count b'.player.items)
        × (b'.player ≡ record b.player { items = b'.player.items })
        × (b'.pl_items ≡ b'.player.items)
        × (b'.pl_count ≡ b.player.item_count))

sort_done-IsSorted :
    (junk : List Item) (b : Bag) (o : Option (List Item))
    → b.player.item_count ≤ length b.player.items
    → Draws (take b.player.item_count b.player.items) o
    → IsSorted b (sort_done junk b o)
unfolding sort_done Draws
sort_done-IsSorted junk b none le d = inl (refl, refl)
sort_done-IsSorted junk b (some xs) le (rest, (p, len)) =
    elim (Bool-cases (length xs == b.player.item_count)) [
      | inr e ↦ rw e (inl (refl, refl))
      | inl e ↦
          let n : length xs ≡ b.player.item_count = ground arith in
          let all : length (take b.player.item_count b.player.items) ≡ b.player.item_count =
            omega (arith, length-take b.player.item_count b.player.items) in
          let none_left : rest ≡ [] = length-zero rest (omega (arith, length-append xs rest)) in
          let p' : Perm (take b.player.item_count b.player.items) xs =
            subst (λ k. Perm (take b.player.item_count b.player.items) k)
              (ap (λ r. xs ++ r) none_left ∙ append-nil xs) p in
          rw e (
            inr (
              refl,
              subst (λ k. Perm (take b.player.item_count b.player.items) k)
                  (sym (take-append_all b.player.item_count xs junk n)) p',
              refl,
              refl,
              refl,
            ))
    ]

-- A sort either returns -1 and changes nothing, or returns 0 and leaves the entries in use of the
-- inventory, and of its copy, the same items in another order, none lost, doubled or made up,
-- whatever ids the client sends and whatever fills the rest of the array. The inventory has at most
-- 30 entries in use.
pub handle_bb_sort_inv-IsSorted :
    (junk : List Item) (b : Bag) (pkt : SortPacket)
    → b.player.item_count ≤ 30
    → length b.player.items ≡ 30
    → IsSorted b (handle_bb_sort_inv junk b pkt)
unfolding handle_bb_sort_inv
handle_bb_sort_inv-IsSorted junk b pkt le len =
    let n = b.player.item_count in
    let items = b.player.items in
    let drawn : Draws (take n items) (sorted items n (replicate 30 false) pkt.item_ids) =
      subst (λ (pool : List Item). Draws pool (sorted items n (replicate 30 false) pkt.item_ids))
        (unused-replicate 30 (take n items))
        (sorted-Draws pkt.item_ids items n (replicate 30 false) (omega arith) (omega arith)) in
    elim (Bool-cases (b.lobby_type == type_lobby)) [
      | inl e1 ↦ rw e1 (inl (refl, refl))
      | inr e1 ↦ rw e1 (elim (Bool-cases (not (pkt.pkt_len == 0x84) || not (pkt.size == 0x1F))) [
        | inl e2 ↦ rw e2 (inl (refl, refl))
        | inr e2 ↦ rw e2 (
            sort_done-IsSorted junk b (sorted items n (replicate 30 false) pkt.item_ids)
              (omega arith) drawn)
      ])
    ]
