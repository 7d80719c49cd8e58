-- ===== src/Prelude/Counted.antt =====
-- Counts of rows before and after each row is rewritten, and rows with a key of their own.
use Prim.Native.Nat.{ℕ, ◌≤◌, ◌<◌}
use mathlib.Core.Path.{◌≡◌, refl, sym, subst, ◌∙◌}
use mathlib.Core.Logic.{inl, inr}
use mathlib.Core.Bool.{Bool, true, false, ◌&&◌, not}
use mathlib.Core.Option.{some}
use mathlib.Core.List.{List, [], ◌∷◌, map}
use native.Mathlib.Omega.{arith}
use hamicloud.Prelude.Tests.{◌==◌, Bool-cases}
use hamicloud.Prelude.Lists.{All, any, first, count, delete}

module _ {ℓ} {A : Type ℓ} where
  -- Each row that has `p` afterwards had it before.
  abbrev pub Shrinks : (A → Bool) → (A → A) → List A → Type 0
  Shrinks p f [] = Unit {0}
  Shrinks p f (x ∷ xs) = (p (f x) ≡ true → p x ≡ true) × Shrinks p f xs

  pub count-map-le :
      (p : A → Bool) (f : A → A) (xs : List A) → Shrinks p f xs → count p (map f xs) ≤ count p xs
  count-map-le p f [] h = omega arith
  count-map-le p f (x ∷ xs) (h, hs) = elim (Bool-cases (p (f x))) [
    | inl yes' ↦ let was = h yes' in ground (arith, count-map-le p f xs hs)
    | inr no' ↦ ground (arith, count-map-le p f xs hs)
  ]

  pub count-map-lt :
      (p : A → Bool) (f : A → A) (xs : List A)
      → Shrinks p f xs
      → any (λ x. p x && not (p (f x))) xs ≡ true
      → count p (map f xs) < count p xs
  count-map-lt p f [] h e = cc
  count-map-lt p f (x ∷ xs) (h, hs) e = elim (Bool-cases (p (f x))) [
    | inl yes' ↦ let was = h yes' in ground (arith, count-map-lt p f xs hs)
    | inr no' ↦ elim (Bool-cases (p x)) [
      | inl was ↦ ground (arith, count-map-le p f xs hs)
      | inr not' ↦ ground (arith, count-map-lt p f xs hs)
    ]
  ]

  pub any_mono :
      (p q : A → Bool) (xs : List A)
      → All (λ x. p x ≡ true → q x ≡ true) xs
      → any p xs ≡ true
      → any q xs ≡ true
  any_mono p q [] h e = e
  any_mono p q (x ∷ xs) (h, hs) e = elim (Bool-cases (p x)) [
    | inl hit ↦ let also = h hit in ground arith
    | inr miss ↦ elim (Bool-cases (q x)) [
      | inl hit ↦ ground arith
      | inr none' ↦ ground (arith, any_mono p q xs hs)
    ]
  ]

  pub All-every {κ} : (P : A → Type κ) (xs : List A) → ((x : A) → P x) → All P xs
  All-every P [] h = tt
  All-every P (x ∷ xs) h = (h x, All-every P xs h)

  pub All-map2 {κ μ} :
      (P : A → Type κ) (Q : A → Type μ) (xs : List A) → ((x : A) → P x → Q x) → All P xs → All Q xs
  All-map2 P Q [] f h = tt
  All-map2 P Q (x ∷ xs) f (h, hs) = (f x h, All-map2 P Q xs f hs)

  pub any-count : (p : A → Bool) (xs : List A) → 1 ≤ count p xs → any p xs ≡ true
  any-count p [] h = absurd (omega arith)
  any-count p (x ∷ xs) h = ground (arith, any-count p xs)

  pub count-delete-le : (p q : A → Bool) (xs : List A) → count p (delete q xs) ≤ count p xs
  count-delete-le p q [] = omega arith
  count-delete-le p q (x ∷ xs) = ground (arith, count-delete-le p q xs)

  -- Rows whose keys differ.
  module _ (key : A → ℕ) where
    abbrev pub DistinctKeys : List A → Type 0
    DistinctKeys [] = Unit {0}
    DistinctKeys (x ∷ xs) = (count (λ y. key y == key x) xs ≡ 0) × DistinctKeys xs

    differ :
        (x : A) (xs : List A)
        → count (λ y. key y == key x) xs ≡ 0
        → All (λ y. (key x == key y) ≡ false) xs
    differ x [] h = tt
    differ x (y ∷ ys) h = (ground arith, differ x ys (ground arith))

    abbrev pub Located : List A → A → Type ℓ
    Located xs y = (first (λ z. key z == key y) xs ≡ some y) × (count (λ z. key z == key y) xs ≤ 1)

    further :
        (x : A) (xs ys : List A)
        → All (λ y. (key x == key y) ≡ false) ys
        → All (Located xs) ys
        → All (Located (x ∷ xs)) ys
    further x xs [] d h = tt
    further x xs (y ∷ ys) (d, ds) (h, hs) = ((ground arith, ground arith), further x xs ys ds hs)

    pub DistinctKeys-Located : (xs : List A) → DistinctKeys xs → All (Located xs) xs
    DistinctKeys-Located [] h = tt
    DistinctKeys-Located (x ∷ xs) (h, hs) =
        ((ground arith, ground arith), further x xs xs (differ x xs h) (DistinctKeys-Located xs hs))

    pub count_key-map :
        (f : A → A) (k : ℕ) (xs : List A)
        → ((x : A) → key (f x) ≡ key x)
        → count (λ y. key y == k) (map f xs) ≡ count (λ y. key y == k) xs
    count_key-map f k [] h = refl
    count_key-map f k (x ∷ xs) h = ground (arith, h x, count_key-map f k xs h)

    pub DistinctKeys-map :
        (f : A → A) (xs : List A)
        → ((x : A) → key (f x) ≡ key x)
        → DistinctKeys xs
        → DistinctKeys (map f xs)
    DistinctKeys-map f [] h d = tt
    DistinctKeys-map f (x ∷ xs) h (d, ds) = (
      subst (λ k. count (λ y. key y == k) (map f xs) ≡ 0) (sym (h x))
          (count_key-map f (key x) xs h ∙ d),
      DistinctKeys-map f xs h ds,
    )

    pub DistinctKeys-delete :
        (q : A → Bool) (xs : List A) → DistinctKeys xs → DistinctKeys (delete q xs)
    DistinctKeys-delete q [] d = tt
    DistinctKeys-delete q (x ∷ xs) (d, ds) = elim (Bool-cases (q x)) [
      | inl gone ↦ rw gone (DistinctKeys-delete q xs ds)
      | inr stays ↦
          rw stays
            (omega (arith, count-delete-le (λ y. key y == key x) q xs), DistinctKeys-delete q xs ds)
    ]

  pub first-delete :
      (p q : A → Bool) (xs : List A) (a : A)
      → first p xs ≡ some a
      → q a ≡ false
      → first p (delete q xs) ≡ some a
  first-delete p q [] a h e = h
  first-delete p q (x ∷ xs) a h e = elim (Bool-cases (p x)) [
    | inl hit ↦
        let same : x ≡ a = ground arith in
        let stays : q x ≡ false = subst (λ y. q y ≡ false) (sym same) e in ground arith
    | inr miss ↦ ground (arith, first-delete p q xs a)
  ]
