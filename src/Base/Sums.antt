-- ===== src/Base/Sums.antt =====
-- Sums over the entries in use of an array, under the writes that the containers make.
use Prim.Native.Nat.{ℕ, zero, suc, ◌+◌, ◌-◌, ◌≤◌, ◌<◌}
use mathlib.Core.Path.{◌≡◌, ap}
use mathlib.Core.List.{List, [], ◌∷◌, ◌++◌}
use native.Mathlib.Omega.{arith}
use ship_server.Base.Lists.{length, take, get_or, set}
use ship_server.Base.Loops.{close_gap, take-shift_down}

module _ {ℓ} {A : Type ℓ} where
  abbrev pub sum_by : (A → ℕ) → List A → ℕ
  sum_by f [] = 0
  sum_by f (x ∷ xs) = f x + sum_by f xs

module _ {ℓ} {A : Type ℓ} (f : A → ℕ) where
  pub sum_by-append : (xs ys : List A) → sum_by f (xs ++ ys) ≡ sum_by f xs + sum_by f ys
  sum_by-append [] ys = omega arith
  sum_by-append (x ∷ xs) ys = omega (arith, sum_by-append xs ys)

  pub sum_by-set :
      (n i : ℕ) (xs : List A) (d y : A)
      → i < n
      → n ≤ length xs
      → sum_by f (take n (set xs i y)) + f (get_or xs i d) ≡ sum_by f (take n xs) + f y
  sum_by-set zero i xs d y h k = elim h [ ]
  sum_by-set (suc n) i [] d y h k = absurd (omega arith)
  sum_by-set (suc n) zero (x ∷ xs) d y h k = omega arith
  sum_by-set (suc n) (suc i) (x ∷ xs) d y h k =
      omega (arith, sum_by-set n i xs d y (omega arith) (omega arith))

  pub sum_by-close_gap :
      (n i : ℕ) (xs : List A) (d : A)
      → i < n
      → n ≤ length xs
      → sum_by f (take (n - 1) (close_gap i (n - i - 1) xs)) + f (get_or xs i d)
        ≡ sum_by f (take n xs)
  unfolding close_gap
  sum_by-close_gap zero i xs d h k = elim h [ ]
  sum_by-close_gap (suc n) i [] d h k = absurd (omega arith)
  sum_by-close_gap (suc n) zero (x ∷ xs) d h k =
      ground (arith, take-shift_down n x xs, ap (sum_by f) (take-shift_down n x xs (omega arith)))
  sum_by-close_gap (suc zero) (suc i) (x ∷ xs) d h k = absurd (omega arith)
  sum_by-close_gap (suc (suc n)) (suc i) (x ∷ xs) d h k =
      ground (arith, sum_by-close_gap (suc n) i xs d (omega arith) (omega arith))
