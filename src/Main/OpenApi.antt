-- ===== src/Main/OpenApi.antt =====
-- `custom_openapi` of apps/api/app/main.py. `get_openapi` of FastAPI is a parameter; in its schemas
-- the parameters of an operation are a list.
pub mod Hidden
use hamicloud.Prelude.{◌||◌, none, ◌=s=◌, some, false, Option, Bool, if◌then◌else◌}
use hamicloud.Models.Json.{Json, Fields, Items, field, end, dict, array, cons, nil}
use hamicloud.Main.Errors.{get_field}

-- `p.get("name") in ("X-Dev-Subject", "Authorization")`
abbrev pub is_hidden_name : Option Json → Bool
is_hidden_name (some (Json.text s)) = s =s= "X-Dev-Subject" || s =s= "Authorization"
is_hidden_name other = false

unfoldable pub is_hidden : Json → Bool
unfolding get_field
is_hidden (dict fs) = is_hidden_name (get_field "name" fs)
is_hidden other = false

unfoldable pub keep_visible : Items → Items
unfolding is_hidden
keep_visible nil = nil
keep_visible (cons p ps) = let rest = keep_visible ps in if is_hidden p then rest else cons p rest

abbrev pub visible_value : Json → Json
visible_value (array ps) = array (keep_visible ps)
visible_value other = other

-- `operation["parameters"] = [...]`, where the key is there.
unfoldable pub strip_operation : Fields → Fields
unfolding keep_visible
strip_operation end = end
strip_operation (field k v fs) =
    field k (if k =s= "parameters" then visible_value v else v) (strip_operation fs)

abbrev pub strip_operation_value : Json → Json
strip_operation_value (dict fs) = dict (strip_operation fs)
strip_operation_value other = other

unfoldable pub strip_path_item : Fields → Fields
unfolding strip_operation
strip_path_item end = end
strip_path_item (field method v fs) = field method (strip_operation_value v) (strip_path_item fs)

abbrev pub strip_path_value : Json → Json
strip_path_value (dict fs) = dict (strip_path_item fs)
strip_path_value other = other

unfoldable pub strip_paths : Fields → Fields
unfolding strip_path_item
strip_paths end = end
strip_paths (field path v fs) = field path (strip_path_value v) (strip_paths fs)

abbrev pub strip_paths_value : Json → Json
strip_paths_value (dict fs) = dict (strip_paths fs)
strip_paths_value other = other

unfoldable pub strip_schema : Fields → Fields
unfolding strip_paths
strip_schema end = end
strip_schema (field k v fs) =
    field k (if k =s= "paths" then strip_paths_value v else v) (strip_schema fs)

-- `if app.openapi_schema`: the schema that the application keeps once it was made.
abbrev pub kept_schema : Option Fields → Option Fields
kept_schema none = none
kept_schema (some end) = none
kept_schema (some (field k v fs)) = some (field k v fs)

abbrev pub schema_or : Option Fields → Fields → Fields
schema_or none made = made
schema_or (some kept) made = kept

-- The served schema, which the application keeps.
unfoldable pub custom_openapi : Fields → Option Fields → Fields × Option Fields
unfolding strip_schema
custom_openapi get_openapi kept =
    let served = schema_or (kept_schema kept) (strip_schema get_openapi) in (served, some served)
