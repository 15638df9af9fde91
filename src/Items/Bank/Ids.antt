-- ===== src/Items/Bank/Ids.antt =====
-- What `cleanup_bb_bank` makes of a bank.
use mathlib.Core.Option
use ship_server.Base.{
  ℕ, zero, suc, ◌+◌, ◌*◌, ◌%◌, ◌≤◌, ◌<◌, ◌≡◌, refl, ap, ◌∙◌, true, List, [], ◌∷◌, some, arith, ◌==◌,
  ltb, if◌then◌else◌, u32, u32_max, length, get_elem?, holds_between, holds_at, ==→eq,
}
use ship_server.Items.Bank.{BankItem, Bank, zero_item, renumber, first_id, cleanup_bb_bank}
use ship_server.Items.Bank.Units.{IsValid}

abbrev cleared : BankItem
cleared = record zero_item { item_id = u32_max }

abbrev with_id : ℕ → BankItem → BankItem
with_id id x = record x { item_id = id }

length-renumber : (n id : ℕ) (xs : List BankItem) → length (renumber n id xs) ≡ length xs
unfolding renumber
length-renumber zero id [] = refl
length-renumber (suc n) id [] = refl
length-renumber zero id (x ∷ xs) = ap suc (length-renumber zero id xs)
length-renumber (suc n) id (x ∷ xs) = ap suc (length-renumber n ((id + 1) % u32) xs)

get_elem?-renumber :
    (n id : ℕ) (xs : List BankItem) (i : ℕ)
    → i < n
    → id + n ≤ u32
    → get_elem? (renumber n id xs) i ≡ Option.map (with_id (id + i)) (get_elem? xs i)
unfolding renumber
get_elem?-renumber zero id xs i h b = elim h [ ]
get_elem?-renumber (suc n) id [] i h b = refl
get_elem?-renumber (suc n) id (x ∷ xs) zero h b = ap (λ k. some (with_id k x)) (omega arith)
get_elem?-renumber (suc zero) id (x ∷ xs) (suc i) h b = absurd (omega arith)
get_elem?-renumber (suc (suc n)) id (x ∷ xs) (suc i) h b =
    get_elem?-renumber (suc n) ((id + 1) % u32) xs i (omega arith) (omega arith)
    ∙ ap (λ (k : ℕ). Option.map (with_id k) (get_elem? xs i)) (omega arith)

get_elem?-renumber_above :
    (n id : ℕ) (xs : List BankItem) (i : ℕ)
    → n ≤ i
    → i < length xs
    → get_elem? (renumber n id xs) i ≡ some cleared
unfolding renumber
get_elem?-renumber_above zero id [] i h k = absurd (omega arith)
get_elem?-renumber_above (suc n) id [] i h k = absurd (omega arith)
get_elem?-renumber_above zero id (x ∷ xs) zero h k = refl
get_elem?-renumber_above zero id (x ∷ xs) (suc i) h k =
    get_elem?-renumber_above zero id xs i (omega arith) (omega arith)
get_elem?-renumber_above (suc n) id (x ∷ xs) zero h k = absurd (omega arith)
get_elem?-renumber_above (suc n) id (x ∷ xs) (suc i) h k =
    get_elem?-renumber_above n ((id + 1) % u32) xs i (omega arith) (omega arith)

first_id_table : holds_between (λ c. first_id c == 0x80010000 + c * 2097152) 0 12 ≡ true
unfolding holds_between
first_id_table = refl

first_id_lem : (c : ℕ) → c < 12 → first_id c ≡ 0x80010000 + c * 2097152
first_id_lem c h = ==→eq _ _ (
    holds_at (λ k. first_id k == 0x80010000 + k * 2097152) 0 12 c first_id_table (omega arith)
      (omega arith))

-- After `cleanup_bb_bank` for one of the 12 slots of a lobby the entry i in use is the old one
-- with the id 0x80010000 + slot * 2^21 + i, and every entry past those in use is cleared, its id
-- 0xFFFFFFFF; the bank stays valid.
cleanup_bb_bank_lem :
    {b : Bank} (client_id i : ℕ)
    → client_id < 12
    → i < 200
    → IsValid b
    → let b' = cleanup_bb_bank client_id b in
      IsValid b'
      × (get_elem? b'.items i ≡ (
          if ltb i b.item_count
          then Option.map (with_id (0x80010000 + client_id * 2097152 + i)) (get_elem? b.items i)
          else some cleared))
unfolding cleanup_bb_bank
cleanup_bb_bank_lem {b} c i h k v = (
  record { size = length-renumber b.item_count (first_id c) b.items ∙ v.size; within = v.within },
  rw (← first_id_lem c h) (
      ground (
        arith,
        get_elem?-renumber b.item_count (first_id c) b.items i,
        get_elem?-renumber_above b.item_count (first_id c) b.items i,
        first_id_lem c h,
      )),
)
