-- ===== src/Prelude/Distinct.antt =====
-- The number of distinct values, and of those other than one value.
use Prim.Native.Nat.{ℕ, ◌+◌}
use mathlib.Core.Path.{◌≡◌, refl}
use mathlib.Core.Logic.{inl, inr}
use mathlib.Core.Bool.{false, not}
use mathlib.Core.List.{List, [], ◌∷◌}
use native.Mathlib.Omega.{arith}
use hamicloud.Prelude.Tests.{◌==◌, ==_iff, Bool-cases}
use hamicloud.Prelude.Lists.{any, select, length}
use hamicloud.Prelude.Rows.{one_if}
use hamicloud.Prelude.Sorting.{distinct}

any_other :
    (a x : ℕ) (xs : List ℕ)
    → (x == a) ≡ false
    → any (λ y. x == y) (select (λ y. not (y == a)) xs) ≡ any (λ y. x == y) xs
any_other a x [] h = refl
any_other a x (y ∷ ys) h = ground (arith, any_other a x ys h)

pub distinct_counts :
    (a : ℕ) (xs : List ℕ)
    → length (distinct xs)
      ≡ length (distinct (select (λ y. not (y == a)) xs)) + one_if (any (λ y. a == y) xs)
unfolding distinct
distinct_counts a [] = refl
distinct_counts a (x ∷ xs) = elim (Bool-cases (x == a)) [
  | inl same ↦ let e : x ≡ a = (==_iff x a).0 same in ground (arith, distinct_counts a xs)
  | inr other ↦ ground (arith, distinct_counts a xs, any_other a x xs other)
]
