-- ===== src/Main/OpenApi/Hidden.antt =====
-- What the served specification of apps/api/app/main.py shows.
use hamicloud.Prelude.{inr, inl, none, Bool-cases, sym, refl}
use hamicloud.Prelude.{◌=s=◌, ◌++◌, if◌then◌else◌, arith, ◌∷◌, [], select, not, List, ◌≡◌, Bool}
use hamicloud.Models.Json.{Json, Fields, Items, field, end, dict, array, cons, nil}
use hamicloud.Main.OpenApi.{
  is_hidden, keep_visible, visible_value, strip_operation, strip_operation_value, strip_path_item,
  strip_path_value, strip_paths, strip_paths_value, strip_schema, custom_openapi,
}

-- The parameters of a schema's operations, in order.
unfoldable items_of : Items → List Json
items_of nil = []
items_of (cons p ps) = p ∷ items_of ps

abbrev listed : Json → List Json
unfolding items_of
listed (array ps) = items_of ps
listed other = []

unfoldable of_operation : Fields → List Json
unfolding listed
of_operation end = []
of_operation (field k v fs) = (if k =s= "parameters" then listed v else []) ++ of_operation fs

abbrev of_operation_value : Json → List Json
unfolding of_operation
of_operation_value (dict fs) = of_operation fs
of_operation_value other = []

unfoldable of_path_item : Fields → List Json
unfolding of_operation_value
of_path_item end = []
of_path_item (field k v fs) = of_operation_value v ++ of_path_item fs

abbrev of_path_value : Json → List Json
unfolding of_path_item
of_path_value (dict fs) = of_path_item fs
of_path_value other = []

unfoldable of_paths : Fields → List Json
unfolding of_path_value
of_paths end = []
of_paths (field k v fs) = of_path_value v ++ of_paths fs

abbrev of_paths_value : Json → List Json
unfolding of_paths
of_paths_value (dict fs) = of_paths fs
of_paths_value other = []

unfoldable pub parameters_of : Fields → List Json
unfolding of_paths_value
parameters_of end = []
parameters_of (field k v fs) = (if k =s= "paths" then of_paths_value v else []) ++ parameters_of fs

abbrev pub is_shown : Json → Bool
is_shown p = not (is_hidden p)

select-append :
    (xs ys : List Json) → select is_shown (xs ++ ys) ≡ select is_shown xs ++ select is_shown ys
select-append [] ys = refl
select-append (x ∷ xs) ys = ground (arith, select-append xs ys)

kept_items : (ps : Items) → items_of (keep_visible ps) ≡ select is_shown (items_of ps)
unfolding items_of keep_visible
kept_items nil = refl
kept_items (cons p ps) = ground (arith, kept_items ps)

-- Two parts that are each kept are kept together.
both_kept :
    (xs xs' ys ys' : List Json)
    → xs' ≡ select is_shown xs
    → ys' ≡ select is_shown ys
    → xs' ++ ys' ≡ select is_shown (xs ++ ys)
both_kept xs xs' ys ys' hx hy = rw (hx, hy) (sym (select-append xs ys))

kept_list : (v : Json) → listed (visible_value v) ≡ select is_shown (listed v)
unfolding items_of
kept_list (array ps) = kept_items ps
kept_list Json.null = refl
kept_list (Json.boolean b) = refl
kept_list (Json.number n) = refl
kept_list (Json.text s) = refl
kept_list (dict fs) = refl

kept_operation :
    (fs : Fields) → of_operation (strip_operation fs) ≡ select is_shown (of_operation fs)
unfolding of_operation strip_operation
kept_operation end = refl
kept_operation (field k v fs) = elim (Bool-cases (k =s= "parameters")) [
  | inl here ↦
      rw here (both_kept (listed v) _ (of_operation fs) _ (kept_list v) (kept_operation fs))
  | inr other ↦ rw other (kept_operation fs)
]

kept_operation_value :
    (v : Json)
    → of_operation_value (strip_operation_value v) ≡ select is_shown (of_operation_value v)
unfolding of_operation
kept_operation_value (dict fs) = kept_operation fs
kept_operation_value (array ps) = refl
kept_operation_value Json.null = refl
kept_operation_value (Json.boolean b) = refl
kept_operation_value (Json.number n) = refl
kept_operation_value (Json.text s) = refl

kept_path_item :
    (fs : Fields) → of_path_item (strip_path_item fs) ≡ select is_shown (of_path_item fs)
unfolding of_path_item strip_path_item
kept_path_item end = refl
kept_path_item (field k v fs) =
    both_kept (of_operation_value v) _ (of_path_item fs) _ (kept_operation_value v)
      (kept_path_item fs)

kept_path_value :
    (v : Json) → of_path_value (strip_path_value v) ≡ select is_shown (of_path_value v)
unfolding of_path_item
kept_path_value (dict fs) = kept_path_item fs
kept_path_value (array ps) = refl
kept_path_value Json.null = refl
kept_path_value (Json.boolean b) = refl
kept_path_value (Json.number n) = refl
kept_path_value (Json.text s) = refl

kept_paths : (fs : Fields) → of_paths (strip_paths fs) ≡ select is_shown (of_paths fs)
unfolding of_paths strip_paths
kept_paths end = refl
kept_paths (field k v fs) =
    both_kept (of_path_value v) _ (of_paths fs) _ (kept_path_value v) (kept_paths fs)

kept_paths_value :
    (v : Json) → of_paths_value (strip_paths_value v) ≡ select is_shown (of_paths_value v)
unfolding of_paths
kept_paths_value (dict fs) = kept_paths fs
kept_paths_value (array ps) = refl
kept_paths_value Json.null = refl
kept_paths_value (Json.boolean b) = refl
kept_paths_value (Json.number n) = refl
kept_paths_value (Json.text s) = refl

stripped : (fs : Fields) → parameters_of (strip_schema fs) ≡ select is_shown (parameters_of fs)
unfolding parameters_of strip_schema
stripped end = refl
stripped (field k v fs) = elim (Bool-cases (k =s= "paths")) [
  | inl here ↦
      rw here
        (both_kept (of_paths_value v) _ (parameters_of fs) _ (kept_paths_value v) (stripped fs))
  | inr other ↦ rw other (stripped fs)
]

-- The operations of the specification that is made and served have exactly the parameters of
-- FastAPI's, in their order, but for those named X-Dev-Subject and Authorization.
pub served_parameters :
    (made : Fields)
    → parameters_of (custom_openapi made none).0 ≡ select is_shown (parameters_of made)
unfolding custom_openapi
served_parameters made = stripped made
