-- ===== src/Items/Bank/Deposits.antt =====
-- What a deposit adds to the bank.
use ship_server.Base.{
  ℕ, zero, suc, ◌+◌, ◌≤◌, ◌<◌, ◌≡◌, ◌≢◌, refl, ap, ◌∙◌, inl, inr, true, List, [], ◌∷◌, arith, ltb,
  ◌==◌, neg, length, take, get_or, set, find_index, find_index_sound, sum_by, sum_by-set,
  sum_by-append, take-set_end, Bool-cases, ==→eq, ==_refl, ltb→lt,
}
use ship_server.Items.{item_is_stackable}
use ship_server.Items.Bank.{
  BankItem, Bank, zero_item, stack_of, with_stack, append_item, deposit_stack, item_deposit_to_bank,
}
use ship_server.Items.Bank.Units.{IsValid, units, units_of}

append_item-units :
    (b : Bank) (code : ℕ) (it : BankItem)
    → b.item_count < length b.items
    → units code (append_item b it).1 ≡ units code b + units_of code it
unfolding append_item
append_item-units b code it h =
    let one_more : b.item_count + 1 ≡ suc b.item_count = omega arith in
    ap (λ k. sum_by (units_of code) (take k (set b.items b.item_count it))) one_more
    ∙ ap (sum_by (units_of code)) (take-set_end b.items b.item_count it h)
    ∙ sum_by-append (units_of code) (take b.item_count b.items) (it ∷ [])
    ∙ omega arith

-- One entry's units are part of the sum.
units-at :
    (code n i : ℕ) (xs : List BankItem)
    → i < n
    → n ≤ length xs
    → units_of code (get_or xs i zero_item) ≤ sum_by (units_of code) (take n xs)
units-at code zero i xs h k = elim h [ ]
units-at code (suc n) i [] h k = absurd (omega arith)
units-at code (suc n) zero (x ∷ xs) h k = omega arith
units-at code (suc n) (suc i) (x ∷ xs) h k =
    omega (arith, units-at code n i xs (omega arith) (omega arith))

units_of-stack :
    (x it : BankItem)
    → item_is_stackable it.data_l0 ≡ true
    → (x.data_l0 == it.data_l0) ≡ true
    → units_of it.data_l0 x ≡ stack_of x
units_of-stack x it t e = rw (==→eq x.data_l0 it.data_l0 e, t, ==_refl it.data_l0) refl

units-stacked :
    (code : ℕ) (x it : BankItem)
    → item_is_stackable it.data_l0 ≡ true
    → (x.data_l0 == it.data_l0) ≡ true
    → stack_of x + stack_of it < 256
    → units_of code (with_stack x (stack_of x + stack_of it)) ≡ units_of code x + units_of code it
units-stacked code x it t e h = rw (==→eq x.data_l0 it.data_l0 e, t) (ground arith)

deposit_stack-units :
    (b : Bank) (code : ℕ) (it : BankItem)
    → b.item_count < length b.items
    → item_is_stackable it.data_l0 ≡ true
    → units it.data_l0 b + stack_of it < 256
    → let i = find_index (λ o. o.data_l0 == it.data_l0) b.item_count b.items in
      units code (deposit_stack b it i).1 ≡ units code b + units_of code it
unfolding deposit_stack
deposit_stack-units b code it h t fits =
    let i = find_index (λ (o : BankItem). o.data_l0 == it.data_l0) b.item_count b.items in
    let x = get_or b.items i zero_item in
    elim (Bool-cases (ltb i b.item_count)) [
      | inr other ↦ rw other (append_item-units b code it h)
      | inl found ↦
          let lt = ltb→lt i b.item_count found in
          let e =
            find_index_sound (λ (o : BankItem). o.data_l0 == it.data_l0) b.item_count b.items
              zero_item lt in
          let small : stack_of x + stack_of it < 256 = omega (
            arith,
            units_of-stack x it t e,
            units-at it.data_l0 b.item_count i b.items lt (omega arith),
          ) in
          rw found (
            omega (
              arith,
              sum_by-set (units_of code) b.item_count i b.items zero_item
                  (with_stack x (stack_of x + stack_of it)) lt (omega arith),
              units-stacked code x it t e small,
            ))
    ]

-- `item_deposit_to_bank`, when it accepts an entry, adds exactly that entry's units: one for an
-- item that does not stack, its amount for a stack, if the stacks of its code and the new one
-- together hold fewer than 256.
pub item_deposit_to_bank-units :
    {b : Bank} (code : ℕ) (it : BankItem)
    → IsValid b
    → (item_is_stackable it.data_l0 ≡ true → units it.data_l0 b + stack_of it < 256)
    → (item_deposit_to_bank b it).0 ≢ neg 1
    → units code (item_deposit_to_bank b it).1 ≡ units code b + units_of code it
unfolding item_deposit_to_bank
item_deposit_to_bank-units {b} code it v fits ok = elim (Bool-cases (b.item_count == 200)) [
  | inl full ↦ absurd (ok (rw full refl))
  | inr room ↦
      let h : b.item_count < length b.items = ground (arith, v.size, v.within) in
      elim (Bool-cases (item_is_stackable it.data_l0)) [
        | inl t ↦
            let e : item_deposit_to_bank b it
                ≡ deposit_stack b it
                    (find_index (λ o. o.data_l0 == it.data_l0) b.item_count b.items) =
              rw (room, t) refl in
            ap (λ r. units code r.1) e ∙ deposit_stack-units b code it h t (fits t)
        | inr t ↦
            let e : item_deposit_to_bank b it ≡ append_item b it = rw (room, t) refl in
            ap (λ r. units code r.1) e ∙ append_item-units b code it h
      ]
]
