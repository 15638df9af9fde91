-- ===== src/Base/Loops.antt =====
-- The array loops that several files share: a search for the first match, and a `memmove` down.
use Prim.Native.Nat.{ℕ, zero, suc, ◌≤◌, ◌<◌}
use mathlib.Core.Path.{◌≡◌, refl, ap}
use mathlib.Core.Bool.{Bool, true, false}
use mathlib.Core.List.{List, [], ◌∷◌}
use native.Mathlib.Omega.{arith}
use ship_server.Base.Tests.{if◌then◌else◌}
use ship_server.Base.Lists.{length, take, get_or, All}

module _ {ℓ} {A : Type ℓ} where
  -- `for(i = 0; i < n; ++i) if(p(xs[i])) break;`: the value of `i` after the loop.
  unfoldable pub find_index : (A → Bool) → ℕ → List A → ℕ
  find_index p zero xs = 0
  find_index p (suc n) [] = suc n
  find_index p (suc n) (x ∷ xs) = if p x then 0 else suc (find_index p n xs)

  -- `memmove(xs, xs + 1, k)`: entries from k on stay.
  pub shift_down : ℕ → List A → List A
  shift_down zero xs = xs
  shift_down (suc k) [] = []
  shift_down (suc k) (x ∷ []) = x ∷ []
  shift_down (suc k) (x ∷ y ∷ r) = y ∷ shift_down k (y ∷ r)

  -- `memmove(xs + i, xs + i + 1, k)`
  unfoldable pub close_gap : ℕ → ℕ → List A → List A
  close_gap zero k xs = shift_down k xs
  close_gap (suc i) k [] = []
  close_gap (suc i) k (x ∷ xs) = x ∷ close_gap i k xs

  pub length-shift_down : (k : ℕ) (xs : List A) → length (shift_down k xs) ≡ length xs
  unfolding shift_down
  length-shift_down zero xs = refl
  length-shift_down (suc k) [] = refl
  length-shift_down (suc k) (x ∷ []) = refl
  length-shift_down (suc k) (x ∷ y ∷ r) = ap suc (length-shift_down k (y ∷ r))

  pub length-close_gap : (i k : ℕ) (xs : List A) → length (close_gap i k xs) ≡ length xs
  unfolding close_gap
  length-close_gap zero k xs = length-shift_down k xs
  length-close_gap (suc i) k [] = refl
  length-close_gap (suc i) k (x ∷ xs) = ap suc (length-close_gap i k xs)

  pub find_index-le : (p : A → Bool) (n : ℕ) (xs : List A) → find_index p n xs ≤ n
  unfolding find_index
  find_index-le p zero xs = omega arith
  find_index-le p (suc n) [] = omega arith
  find_index-le p (suc n) (x ∷ xs) = ground (arith, find_index-le p n xs)

  -- What the search finds satisfies the test.
  pub find_index_sound :
      (p : A → Bool) (n : ℕ) (xs : List A) (d : A)
      → find_index p n xs < n
      → p (get_or xs (find_index p n xs) d) ≡ true
  unfolding find_index
  find_index_sound p zero xs d h = elim h [ ]
  find_index_sound p (suc n) [] d h = absurd (omega arith)
  find_index_sound p (suc n) (x ∷ xs) d h = ground (arith, find_index_sound p n xs d)

  -- A search that ends at `n` has seen no match.
  pub find_index_complete :
      (p : A → Bool) (n : ℕ) (xs : List A)
      → n ≤ length xs
      → find_index p n xs ≡ n
      → All (λ x. p x ≡ false) (take n xs)
  unfolding find_index
  find_index_complete p zero xs h e = tt
  find_index_complete p (suc n) [] h e = tt
  find_index_complete p (suc n) (x ∷ xs) h e = ground (arith, find_index_complete p n xs)

  -- Taking the entry at i out of the first n leaves the others in order.
  pub take-shift_down :
      (k : ℕ) (x : A) (xs : List A) → k ≤ length xs → take k (shift_down k (x ∷ xs)) ≡ take k xs
  unfolding shift_down
  take-shift_down zero x xs h = refl
  take-shift_down (suc k) x [] h = absurd (omega arith)
  take-shift_down (suc k) x (y ∷ r) h = ap (λ t. y ∷ t) (take-shift_down k y r (omega arith))
