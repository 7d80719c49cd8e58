-- ===== src/Prelude/Queries.antt =====
-- What `order_by`, `limit` and `where` keep of the rows that a test finds.
use Prim.Native.Nat.{ℕ, zero, suc, ◌+◌, ◌≤◌}
use mathlib.Core.Path.{◌≡◌, refl}
use mathlib.Core.Bool.{Bool, true, false, ◌&&◌}
use mathlib.Core.Option.{some}
use mathlib.Core.List.{List, [], ◌∷◌}
use native.Mathlib.Omega.{arith}
use hamicloud.Prelude.Tests.{if◌then◌else◌}
use hamicloud.Prelude.Lists.{first, count, select, any, take, length}
use hamicloud.Prelude.Sorting.{insert_by, order_by}

module _ {A : Type 0} (p : A → Bool) where
  any-insert_by :
      (before : A → A → Bool) (x : A) (xs : List A)
      → any p (insert_by before x xs) ≡ (if p x then true else any p xs)
  unfolding insert_by
  any-insert_by before x [] = refl
  any-insert_by before x (y ∷ ys) = ground (arith, any-insert_by before x ys)

  pub any-order_by : (before : A → A → Bool) (xs : List A) → any p (order_by before xs) ≡ any p xs
  unfolding order_by
  any-order_by before [] = refl
  any-order_by before (x ∷ xs) =
      ground (arith, any-insert_by before x (order_by before xs), any-order_by before xs)

  pub any-take : (n : ℕ) (xs : List A) → any p (take n xs) ≡ true → any p xs ≡ true
  any-take zero xs h = cc
  any-take (suc n) [] h = h
  any-take (suc n) (x ∷ xs) h = ground (arith, any-take n xs)

  pub any-select : (q : A → Bool) (xs : List A) → any p (select q xs) ≡ any (λ x. q x && p x) xs
  any-select q [] = refl
  any-select q (x ∷ xs) = ground (arith, any-select q xs)

  -- Of the one row that `p` finds, `q` holds if it holds of some row that `p` finds.
  pub any_at_key :
      (q : A → Bool) (xs : List A) (a : A)
      → first p xs ≡ some a
      → count p xs ≤ 1
      → any (λ x. q x && p x) xs ≡ q a
  any_at_key q [] a e h = cc
  any_at_key q (x ∷ xs) a e h = ground (arith, any_at_key q xs a, none_left xs)
    where
      none_left : (ys : List A) → count p ys ≡ 0 → any (λ x. q x && p x) ys ≡ false
      none_left [] h = refl
      none_left (y ∷ ys) h = ground (arith, none_left ys)

module _ {A : Type 0} where
  length-insert_by :
      (before : A → A → Bool) (x : A) (xs : List A) → length (insert_by before x xs) ≡ length xs + 1
  unfolding insert_by
  length-insert_by before x [] = omega arith
  length-insert_by before x (y ∷ ys) = ground (arith, length-insert_by before x ys)

  pub length-order_by :
      (before : A → A → Bool) (xs : List A) → length (order_by before xs) ≡ length xs
  unfolding order_by
  length-order_by before [] = refl
  length-order_by before (x ∷ xs) =
      omega (arith, length-insert_by before x (order_by before xs), length-order_by before xs)

  pub take_all : (n : ℕ) (xs : List A) → length xs ≤ n → take n xs ≡ xs
  take_all zero [] h = refl
  take_all zero (x ∷ xs) h = absurd (omega arith)
  take_all (suc n) [] h = refl
  take_all (suc n) (x ∷ xs) h = ground (arith, take_all n xs)

  pub length-select : (q : A → Bool) (xs : List A) → length (select q xs) ≡ count q xs
  length-select q [] = refl
  length-select q (x ∷ xs) = ground (arith, length-select q xs)

  pub count_all : (p : A → Bool) (xs : List A) → ((x : A) → p x ≡ true) → count p xs ≡ length xs
  count_all p [] h = refl
  count_all p (x ∷ xs) h = ground (arith, h x, count_all p xs h)
