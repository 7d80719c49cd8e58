-- ===== src/Core/ImagePolicy/Allowed.antt =====
-- Which images apps/api/app/core/image_policy.py approves.
use hamicloud.Session.Effect.{neutral_rules, Neutral}
use hamicloud.Prelude.{
  refl, [], ◌∷◌, arith, ◌=s=◌, ◌||◌, starts_with, any, ◌≡◌, List, Bool, if◌then◌else◌, String,
}
use hamicloud.Core.ImagePolicy.{
  without_last, ends_with_star, image_allowed, approved_by, validate_image_policy,
}
use hamicloud.Session.Atomic.{Quiet, quiet_rules}
use hamicloud.Env.{Env}

pub image_policy-Quiet : (env : Env) (image : String) → Quiet (validate_image_policy env image)
unfolding validate_image_policy
image_policy-Quiet env image = search quiet_rules

pub image_policy-Neutral : (env : Env) (image : String) → Neutral (validate_image_policy env image)
unfolding validate_image_policy
image_policy-Neutral env image = search neutral_rules

-- What an image must start with to match a pattern.
abbrev pub required_prefix : String → String
required_prefix p = if ends_with_star p then without_last p else p

approved_any :
    (image : String) (ps : List String)
    → approved_by image ps ≡ any (λ p. starts_with image (required_prefix p)) ps
unfolding approved_by
approved_any image [] = refl
approved_any image (p ∷ ps) = let ih = approved_any image ps in ground arith

any-or :
    {A : Type 0} (p q : A → Bool) (xs : List A) → any (λ x. p x || q x) xs ≡ (any p xs || any q xs)
any-or p q [] = refl
any-or p q (x ∷ xs) = let ih = any-or p q xs in ground arith

-- The two passes over the approved patterns allow an image exactly when a pattern is the single star
-- or the image starts with the pattern, its trailing star left off.
pub image_allowed_iff :
    (image : String) (ps : List String)
    → image_allowed image ps ≡ any (λ p. (p =s= "*") || starts_with image (required_prefix p)) ps
unfolding image_allowed
image_allowed_iff image ps =
    let one = approved_any image ps in
    let both = any-or (λ p. p =s= "*") (λ p. starts_with image (required_prefix p)) ps in
    ground arith
