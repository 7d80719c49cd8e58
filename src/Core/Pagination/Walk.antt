-- ===== src/Core/Pagination/Walk.antt =====
-- The pages of a listing (apps/api/app/api/v1) taken one after another.
use hamicloud.Prelude.{
  refl, inr, ltb→lt, inl, length-order_by, subst, drop, Bool-cases, if◌then◌else◌, ap, ◌∙◌, ltb,
  ◌-◌, take_all, ◌+◌, take, get_elem?, ◌≤◌, length, ◌<◌, sym, order_by, zero, select, none, some,
  true, ◌++◌, suc, false, [], ◌≡◌, ◌==◌, All, Option, ◌∷◌, ℕ, arith, List, Bool,
}
use hamicloud.Core.Pagination.{page_of, after_cursor, matching, page, comes_before, Cursor}
use mathlib.Core.Option
use hamicloud.Prelude.Ordered.{
  select_same, All-of, select_holds, Strict, Comparable, AllComparable, All-map, Sorted,
  order_by-Sorted, select-order_by, select_after, select-All, select-select, select-Sorted, All-get,
}
use hamicloud.Prelude.Slices.{
  take_one_less, get-take, take_longer, get_within, take-drop, length-drop,
}

cursor_strict : Strict comes_before
cursor_strict = record {
  trans = λ a b c p q. ground arith;
  asym = λ a b p. ground arith;
  irrefl = λ a. ground arith;
}

module _ {A : Type 0} (key : A → Cursor) where
  abbrev pub earlier : A → A → Bool
  earlier a b = comes_before (key a) (key b)

  key_strict : Strict earlier
  key_strict = record {
    trans = λ a b c. cursor_strict.trans (key a) (key b) (key c);
    asym = λ a b. cursor_strict.asym (key a) (key b);
    irrefl = λ a. cursor_strict.irrefl (key a);
  }

  -- No two of the rows have one identifier.
  abbrev pub UniqueIds : List A → Type 0
  UniqueIds [] = Unit
  UniqueIds (x ∷ xs) = All (λ y. ((key x).id == (key y).id) ≡ false) xs × UniqueIds xs

  -- A client that follows `next_cursor` to a page that has none, and has then seen the rows of all
  -- the pages; none if it has taken so many pages and the last of them has a next cursor too.
  unfoldable pub walk : ℕ → ℕ → Option Cursor → List A → Option (List A)
  unfolding page
  walk limit zero cursor rows = none
  walk limit (suc fuel) cursor rows =
      let (shown, next) = page key limit cursor rows in
      elim next [
        | none ↦ some shown
        | some c ↦ Option.map (λ more. shown ++ more) (walk limit fuel (some c) rows)
      ]

  -- The rest of the walk after a page.
  abbrev next_pages : ℕ → ℕ → List A → List A × Option Cursor → Option (List A)
  unfolding walk
  next_pages limit fuel rows q = elim q.1 [
    | none ↦ some q.0
    | some c ↦ Option.map (λ more. q.0 ++ more) (walk limit fuel (some c) rows)
  ]

  ids_comparable : (xs : List A) → UniqueIds xs → AllComparable earlier key_strict xs
  ids_comparable [] u = tt
  ids_comparable (x ∷ xs) u = (
    All-map _ (Comparable earlier key_strict x) xs (λ y different miss. other x y different miss)
        u.0,
    ids_comparable xs u.1,
  )
    where
      other :
          (x y : A) → ((key x).id == (key y).id) ≡ false → earlier x y ≡ false → earlier y x ≡ true
      other x y d m = ground arith

  abbrev pub rest_after : Option Cursor → List A → List A
  rest_after cursor rows = select (λ a. after_cursor cursor (key a)) (order_by earlier rows)

  -- A page is the start of what comes after its cursor, with the next cursor at its end.
  matching_lem :
      (cursor : Option Cursor) (rows : List A)
      → UniqueIds rows
      → matching key cursor rows ≡ rest_after cursor rows
  unfolding matching
  matching_lem cursor rows u = sym (
      select-order_by earlier key_strict (λ a. after_cursor cursor (key a)) rows
        (ids_comparable rows u))

  after_before : (c row : Cursor) → after_cursor (some c) row ≡ comes_before c row
  after_before c row = ground arith

  rest-Sorted :
      (cursor : Option Cursor) (rows : List A)
      → UniqueIds rows
      → Sorted earlier key_strict (rest_after cursor rows)
  rest-Sorted cursor rows u =
      select-Sorted earlier key_strict (λ a. after_cursor cursor (key a)) (order_by earlier rows)
        (order_by-Sorted earlier key_strict rows (ids_comparable rows u))

  page_of_all : (n : ℕ) (l : List A) → ltb n (length l) ≡ false → page_of key n l ≡ (l, none)
  unfolding page_of
  page_of_all n l h =
      ap (λ b. if b then (take n l, Option.map key (get_elem? l (n - 1))) else (l, none)) h

  page_of_more :
      (n : ℕ) (l : List A) (a : A)
      → ltb n (length l) ≡ true
      → get_elem? l (n - 1) ≡ some a
      → page_of key n l ≡ (take n l, some (key a))
  unfolding page_of
  page_of_more n l a h e =
      ap (λ b. if b then (take n l, Option.map key (get_elem? l (n - 1))) else (l, none)) h
      ∙ ap (λ o. (take n l, Option.map key o)) e

  -- The page when no more rows follow, and when more follow.
  last_page :
      (m : ℕ) (cursor : Option Cursor) (rows : List A)
      → UniqueIds rows
      → length (rest_after cursor rows) ≤ suc m
      → page key (suc m) cursor rows ≡ (rest_after cursor rows, none)
  unfolding page page_of
  last_page m cursor rows u short =
      let r = rest_after cursor rows in
      let whole : take (suc m + 1) r ≡ r = take_all (suc m + 1) r (omega arith) in
      let enough : ltb (suc m) (length r) ≡ false = ground arith in
      ap (λ l. page_of key (suc m) (take (suc m + 1) l)) (matching_lem cursor rows u)
      ∙ ap (page_of key (suc m)) whole
      ∙ page_of_all (suc m) r enough

  full_page :
      (m : ℕ) (cursor : Option Cursor) (rows : List A) (a : A)
      → UniqueIds rows
      → suc m < length (rest_after cursor rows)
      → get_elem? (rest_after cursor rows) m ≡ some a
      → page key (suc m) cursor rows ≡ (take (suc m) (rest_after cursor rows), some (key a))
  unfolding page page_of
  full_page m cursor rows a u long there =
      let r = rest_after cursor rows in
      let one_more : suc m + 1 ≡ suc (suc m) = omega arith in
      let before_last : suc m - 1 ≡ m = omega arith in
      let more : ltb (suc m) (length (take (suc (suc m)) r)) ≡ true =
        ground (arith, take_longer (suc m) r) in
      let last : get_elem? (take (suc (suc m)) r) m ≡ some a =
        get-take (suc (suc m)) m r (omega arith) ∙ there in
      ap (λ l. page_of key (suc m) (take (suc m + 1) l)) (matching_lem cursor rows u)
      ∙ ap (λ n. page_of key (suc m) (take n r)) one_more
      ∙ page_of_more (suc m) (take (suc (suc m)) r) a more
          (ap (get_elem? (take (suc (suc m)) r)) before_last ∙ last)
      ∙ ap (λ l. (l, some (key a))) (take_one_less (suc m) r)

  later :
      (cursor : Option Cursor) (a x : A)
      → after_cursor cursor (key a) ≡ true
      → earlier a x ≡ true
      → after_cursor cursor (key x) ≡ true
  later none a x h k = refl
  later (some c) a x h k =
      after_before c (key x)
      ∙ cursor_strict.trans c (key a) (key x) (sym (after_before c (key a)) ∙ h) k

  -- What follows the last row of a full page is what the page left.
  after_page :
      (m : ℕ) (cursor : Option Cursor) (rows : List A) (a : A)
      → UniqueIds rows
      → get_elem? (rest_after cursor rows) m ≡ some a
      → rest_after (some (key a)) rows ≡ drop (suc m) (rest_after cursor rows)
  after_page m cursor rows a u there =
      let sorted = order_by earlier rows in
      select_same (λ x. after_cursor (some (key a)) (key x)) (earlier a) sorted
        (λ x. after_before (key a) (key x))
      ∙ sym (
          select-select (earlier a) (λ x. after_cursor cursor (key x)) sorted
            (λ x h.
              later cursor a x
                (All-get earlier key_strict (λ y. after_cursor cursor (key y) ≡ true)
                  (rest_after cursor rows) m a
                  (select_holds (λ y. after_cursor cursor (key y)) sorted) there)
                h))
      ∙ select_after earlier key_strict (rest_after cursor rows) m a (rest-Sorted cursor rows u)
          there

  -- So many pages of at least one row give all the rows behind a cursor.
  walk_rest :
      (m fuel : ℕ) (cursor : Option Cursor) (rows : List A)
      → UniqueIds rows
      → length (rest_after cursor rows) < fuel
      → walk (suc m) fuel cursor rows ≡ some (rest_after cursor rows)
  unfolding walk
  walk_rest m zero cursor rows u h = absurd (omega arith)
  walk_rest m (suc fuel) cursor rows u h =
      elim (Bool-cases (ltb (suc m) (length (rest_after cursor rows)))) [
        | inl more ↦
            let r = rest_after cursor rows in
            let (a, there) = get_within m r (ground arith) in
            let p = full_page m cursor rows a u (ltb→lt _ _ more) there in
            let next = after_page m cursor rows a u there in
            let shorter : length (rest_after (some (key a)) rows) < fuel =
              subst (λ l. length l < fuel) (sym next) (ground (arith, length-drop (suc m) r)) in
            ap (next_pages (suc m) fuel rows) p
            ∙ ap (Option.map (λ l. take (suc m) r ++ l))
                (walk_rest m fuel (some (key a)) rows u shorter ∙ ap some next)
            ∙ ap some (take-drop (suc m) r)
        | inr done ↦
            let p = last_page m cursor rows u (ground arith) in ap (next_pages (suc m) fuel rows) p
      ]

  -- A client that follows the cursors of a listing with unique identifiers, in pages of at least one
  -- row, comes to a page with no next cursor after at most one page more than there are rows, and has
  -- then seen all the rows that the listing selects, each once, from the newest to the oldest. The
  -- rows stay as they are meanwhile.
  pub pages_walk :
      (limit fuel : ℕ) (rows : List A)
      → UniqueIds rows
      → 1 ≤ limit
      → length rows < fuel
      → walk limit fuel none rows ≡ some (order_by earlier rows)
  pages_walk zero fuel rows u h k = absurd (omega arith)
  pages_walk (suc m) fuel rows u h k =
      let whole =
        select-All (λ a. after_cursor none (key a)) (order_by earlier rows)
          (All-of _ (order_by earlier rows) (λ x. refl)) in
      walk_rest m fuel none rows u
        (subst (λ l. length l < fuel) (sym whole) (ground (arith, length-order_by earlier rows)))
      ∙ ap some whole
