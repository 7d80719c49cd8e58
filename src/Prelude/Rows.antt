-- ===== src/Prelude/Rows.antt =====
-- What an update or a delete of the one row that a key selects does to the counts and selections of
-- a table.
use Prim.Native.Nat.{ℕ, ◌+◌, ◌≤◌}
use mathlib.Core.Path.{◌≡◌, refl}
use mathlib.Core.Logic.{inl, inr}
use mathlib.Core.Bool.{Bool, true, false}
use mathlib.Core.Option.{some}
use mathlib.Core.List.{List, [], ◌∷◌}
use native.Mathlib.Omega.{arith}
use hamicloud.Prelude.Tests.{Bool-cases}
use hamicloud.Prelude.Lists.{first, count, select, update, delete, count-eq_zero, first-eq_none}

-- 1 for a row that is counted.
abbrev pub one_if : Bool → ℕ
one_if true = 1
one_if false = 0

module _ {A : Type 0} (p q : A → Bool) where
  pub update_unselected : (f : A → A) (xs : List A) → count q xs ≡ 0 → update q f xs ≡ xs
  update_unselected f [] h = refl
  update_unselected f (x ∷ xs) h = ground (arith, update_unselected f xs)

  pub delete_unselected : (xs : List A) → count q xs ≡ 0 → delete q xs ≡ xs
  delete_unselected [] h = refl
  delete_unselected (x ∷ xs) h = ground (arith, delete_unselected xs)

  -- The one row that `q` selects is taken out of the count and its update put in.
  pub count-update :
      (f : A → A) (xs : List A) (a : A)
      → first q xs ≡ some a
      → count q xs ≤ 1
      → count p (update q f xs) + one_if (p a) ≡ count p xs + one_if (p (f a))
  count-update f [] a e h = cc
  count-update f (x ∷ xs) a e h = ground (arith, update_unselected f xs, count-update f xs a)

  pub count-delete :
      (xs : List A) (a : A)
      → first q xs ≡ some a
      → count q xs ≤ 1
      → count p (delete q xs) + one_if (p a) ≡ count p xs
  count-delete [] a e h = cc
  count-delete (x ∷ xs) a e h = ground (arith, delete_unselected xs, count-delete xs a)

  pub select-update :
      (f : A → A) (xs : List A) (a : A)
      → first q xs ≡ some a
      → count q xs ≤ 1
      → p a ≡ false
      → p (f a) ≡ false
      → select p (update q f xs) ≡ select p xs
  select-update f [] a e h n m = cc
  select-update f (x ∷ xs) a e h n m = ground (arith, update_unselected f xs, select-update f xs a)

  pub select-delete :
      (xs : List A) (a : A)
      → first q xs ≡ some a
      → count q xs ≤ 1
      → p a ≡ false
      → select p (delete q xs) ≡ select p xs
  select-delete [] a e h n = cc
  select-delete (x ∷ xs) a e h n = ground (arith, delete_unselected xs, select-delete xs a)

  -- A row that `p` finds is the one that `q` finds, if `q` selects it and no other.
  pub first_by_key :
      (xs : List A) (a : A)
      → first p xs ≡ some a
      → q a ≡ true
      → count q xs ≤ 1
      → first q xs ≡ some a
  first_by_key [] a e k h = cc
  first_by_key (x ∷ xs) a e k h = elim (Bool-cases (p x)) [
    | inl hit ↦ ground arith
    | inr miss ↦ elim (Bool-cases (q x)) [
      | inl key ↦ absurd (ground (arith, first_by_key xs a, count-eq_zero q xs, first-eq_none q xs))
      | inr other ↦ ground (arith, first_by_key xs a)
    ]
  ]
