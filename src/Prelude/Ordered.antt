-- ===== src/Prelude/Ordered.antt =====
-- Sorting by a strict order: a sorted list's selections, and what comes after one of its rows.
use Prim.Native.Nat.{ℕ, zero, suc}
use mathlib.Core.Path.{◌≡◌, refl, sym, ap, ◌∙◌, subst}
use mathlib.Core.Logic.{inl, inr}
use mathlib.Core.Bool.{Bool, true, false}
use mathlib.Core.List.{List, [], ◌∷◌}
use mathlib.Core.Option.{some}
use native.Mathlib.Omega.{arith}
use hamicloud.Prelude.Tests.{Bool-cases, if◌then◌else◌}
use hamicloud.Prelude.Lists.{select, All, drop, get_elem?}
use hamicloud.Prelude.Sorting.{insert_by, order_by}

module _ {A : Type 0} where
  pub All-map : (P Q : A → Type 0) (xs : List A) → ((x : A) → P x → Q x) → All P xs → All Q xs
  All-map P Q [] f h = tt
  All-map P Q (x ∷ xs) f h = (f x h.0, All-map P Q xs f h.1)

  pub All-of : (P : A → Type 0) (xs : List A) → ((x : A) → P x) → All P xs
  All-of P [] f = tt
  All-of P (x ∷ xs) f = (f x, All-of P xs f)

  pub select_holds : (p : A → Bool) (xs : List A) → All (λ x. p x ≡ true) (select p xs)
  select_holds p [] = tt
  select_holds p (x ∷ xs) = elim (Bool-cases (p x)) [
    | inl hit ↦
        subst (λ b. All (λ y. p y ≡ true) (if b then x ∷ select p xs else select p xs)) (sym hit)
          (hit, select_holds p xs)
    | inr miss ↦
        subst (λ b. All (λ y. p y ≡ true) (if b then x ∷ select p xs else select p xs)) (sym miss)
          (select_holds p xs)
  ]

  pub select_same :
      (p q : A → Bool) (xs : List A) → ((x : A) → p x ≡ q x) → select p xs ≡ select q xs
  select_same p q [] h = refl
  select_same p q (x ∷ xs) h = ground (arith, h x, select_same p q xs h)

  All-select : (P : A → Type 0) (p : A → Bool) (xs : List A) → All P xs → All P (select p xs)
  All-select P p [] h = tt
  All-select P p (x ∷ xs) h =
      elim (p x) as (λ b. All P (if b then x ∷ select p xs else select p xs)) [
        | true ↦ (h.0, All-select P p xs h.1)
        | false ↦ All-select P p xs h.1
      ]

  pub select-All : (p : A → Bool) (xs : List A) → All (λ x. p x ≡ true) xs → select p xs ≡ xs
  select-All p [] h = refl
  select-All p (x ∷ xs) h = ground (arith, select-All p xs h.1)

  pub select-select :
      (p q : A → Bool) (xs : List A)
      → ((x : A) → p x ≡ true → q x ≡ true)
      → select p (select q xs) ≡ select p xs
  select-select p q [] f = refl
  select-select p q (x ∷ xs) f = ground (arith, f x, select-select p q xs f)

-- An order that is strict and transitive.
pub record Strict {A : Type 0} (before : A → A → Bool) : Type 0 where
  pub trans : (x y z : A) → before x y ≡ true → before y z ≡ true → before x z ≡ true
  pub asym : (x y : A) → before x y ≡ true → before y x ≡ false
  pub irrefl : (x : A) → before x x ≡ false

module _ {A : Type 0} (before : A → A → Bool) (strict : Strict before) where
  abbrev pub Sorted : List A → Type 0
  Sorted [] = Unit
  Sorted (x ∷ xs) = All (λ y. before x y ≡ true) xs × Sorted xs

  -- Rows of which each comes before or after each other one.
  abbrev pub Comparable : A → A → Type 0
  Comparable x y = before x y ≡ false → before y x ≡ true

  abbrev pub AllComparable : List A → Type 0
  AllComparable [] = Unit
  AllComparable (x ∷ xs) = All (Comparable x) xs × AllComparable xs

  All-insert_by :
      (P : A → Type 0) (x : A) (ys : List A) → P x → All P ys → All P (insert_by before x ys)
  unfolding insert_by
  All-insert_by P x [] p h = (p, tt)
  All-insert_by P x (y ∷ ys) p h =
      elim (before x y) as (λ b. All P (if b then x ∷ y ∷ ys else y ∷ insert_by before x ys)) [
        | true ↦ (p, h)
        | false ↦ (h.0, All-insert_by P x ys p h.1)
      ]

  All-order_by : (P : A → Type 0) (xs : List A) → All P xs → All P (order_by before xs)
  unfolding order_by
  All-order_by P [] h = tt
  All-order_by P (x ∷ xs) h = All-insert_by P x (order_by before xs) h.0 (All-order_by P xs h.1)

  insert_by-Sorted :
      (x : A) (ys : List A) → All (Comparable x) ys → Sorted ys → Sorted (insert_by before x ys)
  unfolding insert_by
  insert_by-Sorted x [] c s = (tt, tt)
  insert_by-Sorted x (y ∷ ys) c s = elim (Bool-cases (before x y)) [
    | inl hit ↦
        let all_after = All-map _ (λ z. before x z ≡ true) ys (λ z. strict.trans x y z hit) s.0 in
        subst (λ b. Sorted (if b then x ∷ y ∷ ys else y ∷ insert_by before x ys)) (sym hit)
          ((hit, all_after), s)
    | inr miss ↦
        subst (λ b. Sorted (if b then x ∷ y ∷ ys else y ∷ insert_by before x ys)) (sym miss)
          (
            All-insert_by (λ z. before y z ≡ true) x ys (c.0 miss) s.0,
            insert_by-Sorted x ys c.1 s.1,
          )
  ]

  pub order_by-Sorted : (xs : List A) → AllComparable xs → Sorted (order_by before xs)
  unfolding order_by
  order_by-Sorted [] c = tt
  order_by-Sorted (x ∷ xs) c =
      insert_by-Sorted x (order_by before xs) (All-order_by (Comparable x) xs c.0)
        (order_by-Sorted xs c.1)

  pub select-Sorted : (p : A → Bool) (xs : List A) → Sorted xs → Sorted (select p xs)
  select-Sorted p [] s = tt
  select-Sorted p (x ∷ xs) s =
      elim (p x) as (λ b. Sorted (if b then x ∷ select p xs else select p xs)) [
        | true ↦ (All-select (λ y. before x y ≡ true) p xs s.0, select-Sorted p xs s.1)
        | false ↦ select-Sorted p xs s.1
      ]

  insert_front :
      (x : A) (ys : List A) → All (λ y. before x y ≡ true) ys → insert_by before x ys ≡ x ∷ ys
  unfolding insert_by
  insert_front x [] h = refl
  insert_front x (y ∷ ys) h = rw h.0

  select-insert_by :
      (p : A → Bool) (x : A) (ys : List A)
      → Sorted ys
      → select p (insert_by before x ys)
        ≡ (if p x then insert_by before x (select p ys) else select p ys)
  unfolding insert_by
  select-insert_by p x [] s = ground arith
  select-insert_by p x (y ∷ ys) s = elim (Bool-cases (before x y)) [
    | inl hit ↦
        let all_after : All (λ z. before x z ≡ true) (y ∷ ys) =
          (hit, All-map _ (λ z. before x z ≡ true) ys (λ z. strict.trans x y z hit) s.0) in
        let front = insert_front x (select p (y ∷ ys)) (All-select _ p (y ∷ ys) all_after) in
        subst
          (λ l.
            select p (if before x y then x ∷ y ∷ ys else y ∷ insert_by before x ys)
            ≡ (if p x then l else select p (y ∷ ys)))
          (sym front) (rw hit)
    | inr miss ↦ ground (arith, select-insert_by p x ys s.1)
  ]

  -- A selection of the sorted rows is the sorted selection.
  pub select-order_by :
      (p : A → Bool) (xs : List A)
      → AllComparable xs
      → select p (order_by before xs) ≡ order_by before (select p xs)
  unfolding order_by
  select-order_by p [] c = refl
  select-order_by p (x ∷ xs) c =
      select-insert_by p x (order_by before xs) (order_by-Sorted xs c.1)
      ∙ ap (λ l. if p x then insert_by before x l else l) (select-order_by p xs c.1)
      ∙ picked (p x)
    where
      picked :
          (b : Bool)
          → (if b
              then insert_by before x (order_by before (select p xs))
              else order_by before (select p xs))
            ≡ order_by before (if b then x ∷ select p xs else select p xs)
      picked true = refl
      picked false = refl

  pub All-get :
      (P : A → Type 0) (xs : List A) (k : ℕ) (a : A) → All P xs → get_elem? xs k ≡ some a → P a
  All-get P [] k a h e = absurd (cc)
  All-get P (x ∷ xs) zero a h e = let same : x ≡ a = cc in subst P same h.0
  All-get P (x ∷ xs) (suc k) a h e = All-get P xs k a h.1 e

  -- What comes after a row of a sorted list is what stands behind it.
  pub select_after :
      (xs : List A) (k : ℕ) (a : A)
      → Sorted xs
      → get_elem? xs k ≡ some a
      → select (before a) xs ≡ drop (suc k) xs
  select_after [] k a s e = absurd (cc)
  select_after (x ∷ xs) zero a s e =
      let same : x ≡ a = cc in
      let own : before a x ≡ false = subst (λ y. before a y ≡ false) (sym same) (strict.irrefl a) in
      let rest = select-All (before a) xs (subst (λ y. All (λ z. before y z ≡ true) xs) same s.0) in
      ap (λ b. if b then x ∷ select (before a) xs else select (before a) xs) own ∙ rest
  select_after (x ∷ xs) (suc k) a s e =
      let earlier : before a x ≡ false =
        strict.asym x a (All-get (λ z. before x z ≡ true) xs k a s.0 e) in
      ap (λ b. if b then x ∷ select (before a) xs else select (before a) xs) earlier
      ∙ select_after xs k a s.1 e
