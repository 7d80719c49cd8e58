-- ===== src/Core/ImagePolicy.antt =====
-- apps/api/app/core/image_policy.py
pub mod Allowed
use hamicloud.Prelude.{
  starts_with, String, Bool, true, false, ◌||◌, List, [], ◌∷◌, any, if◌then◌else◌, ◌=s=◌, ◌-◌, ◌==◌,
}
use Prim.Native.Char.{Char, code}
use hamicloud.Session.{M, raise_if, image_policy_violation}
use hamicloud.Env.{Env}
use hamicloud.Prelude.{not}

-- `pattern.endswith("*")`
unfoldable pub ends_with_star : String → Bool
ends_with_star String.[] = false
ends_with_star (String.◌∷◌ c String.[]) = code c == b'*'
ends_with_star (String.◌∷◌ c (String.◌∷◌ d s)) = ends_with_star (String.◌∷◌ d s)

-- `pattern[:-1]`
unfoldable pub without_last : String → String
without_last String.[] = String.[]
without_last (String.◌∷◌ c String.[]) = String.[]
without_last (String.◌∷◌ c (String.◌∷◌ d s)) = String.◌∷◌ c (without_last (String.◌∷◌ d s))

-- The loop over the patterns.
unfoldable pub approved_by : String → List String → Bool
approved_by image [] = false
approved_by image (pattern ∷ patterns) =
    let rest = approved_by image patterns in
    if ends_with_star pattern
    then (if starts_with image (without_last pattern) then true else rest)
    else (if starts_with image pattern then true else rest)

unfoldable pub image_allowed : String → List String → Bool
unfolding approved_by
image_allowed image patterns =
    if any (λ p. p =s= "*") patterns then true else approved_by image patterns

unfoldable pub validate_image_policy : Env → String → M (Unit {0})
validate_image_policy env image =
    let patterns = env.settings.approved_image_registries in
    raise_if (not (image_allowed image patterns)) 422 (image_policy_violation image patterns)
