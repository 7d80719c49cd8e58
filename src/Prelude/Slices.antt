-- ===== src/Prelude/Slices.antt =====
-- The first and the last rows of a list.
use Prim.Native.Nat.{ℕ, zero, suc, ◌<◌, ◌-◌}
use mathlib.Core.Path.{◌≡◌, refl, ap}
use mathlib.Core.Logic.{◌↔◌}
use mathlib.Core.List.{List, [], ◌∷◌, ◌++◌}
use mathlib.Core.Option.{some}
use native.Mathlib.Omega.{arith}
use hamicloud.Prelude.Lists.{drop, take, length, get_elem?}

module _ {A : Type 0} where
  pub take_one_less : (n : ℕ) (xs : List A) → take n (take (suc n) xs) ≡ take n xs
  take_one_less zero xs = refl
  take_one_less (suc n) [] = refl
  take_one_less (suc n) (x ∷ xs) = ap (λ l. x ∷ l) (take_one_less n xs)

  pub get-take : (n k : ℕ) (xs : List A) → k < n → get_elem? (take n xs) k ≡ get_elem? xs k
  get-take zero k xs h = absurd (omega arith)
  get-take (suc n) k [] h = refl
  get-take (suc n) zero (x ∷ xs) h = refl
  get-take (suc n) (suc k) (x ∷ xs) h = get-take n k xs (omega arith)

  pub take_longer : (n : ℕ) (xs : List A) → (n < length (take (suc n) xs)) ↔ (n < length xs)
  take_longer n [] = ground arith
  take_longer zero (x ∷ xs) = ground arith
  take_longer (suc n) (x ∷ xs) = ground (arith, take_longer n xs)

  pub get_within : (k : ℕ) (xs : List A) → k < length xs → (a : A) × (get_elem? xs k ≡ some a)
  get_within k [] h = absurd (omega arith)
  get_within zero (x ∷ xs) h = (x, refl)
  get_within (suc k) (x ∷ xs) h = get_within k xs (omega arith)

  pub take-drop : (n : ℕ) (xs : List A) → take n xs ++ drop n xs ≡ xs
  take-drop zero xs = refl
  take-drop (suc n) [] = refl
  take-drop (suc n) (x ∷ xs) = ap (λ l. x ∷ l) (take-drop n xs)

  pub length-drop : (n : ℕ) (xs : List A) → length (drop n xs) ≡ length xs - n
  length-drop zero xs = omega arith
  length-drop (suc n) [] = omega arith
  length-drop (suc n) (x ∷ xs) = ground (arith, length-drop n xs)
