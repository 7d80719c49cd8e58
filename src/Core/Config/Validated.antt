-- ===== src/Core/Config/Validated.antt =====
-- What a service that has started can rely on (apps/api/app/core/config.py).
use hamicloud.Core.Auth.Tokens.{
  options_for, non_blank, decode_options, DecodeOptions, is_development,
}
use hamicloud.Session.{ok, Tx}
use hamicloud.Prelude.{
  sym, subst, inr, inl, Bool-cases, ◌=s=◌, refl, ◌⊎◌, arith, is_blank, false, some, is_some, none,
  true, ◌||◌, not, ◌≡◌, if◌then◌else◌, String, Bool, Option,
}
use hamicloud.Core.Config.{
  artifacts_dir_or, effective_artifacts_dir, Paths, validate_runtime_environment,
}
use hamicloud.Env.{default_secret_encryption_key, Settings}

options_exist :
    (s : Settings) (o : Option String) (t : Tx)
    → (is_development s || is_some o) ≡ true
    → (options : DecodeOptions) × (decode_options s o t ≡ (ok options, t))
options_exist s (some audience) t h = (options_for s (some audience), refl)
options_exist s none t h =
    let dev : is_development s ≡ true = ground arith in (options_for s none, rw dev)

dir_exists :
    (paths : Paths) (s : Settings) (o : Option String)
    → is_development s ≡ true
    → is_blank paths.var_artifacts ≡ false
    → ((p : String) → is_blank (paths.abspath p) ≡ false)
    → is_blank (artifacts_dir_or paths s o) ≡ false
dir_exists paths s none dev k f =
    subst (λ b. is_blank (if b then paths.var_artifacts else "") ≡ false) (sym dev) k
dir_exists paths s (some dir) dev k f = f dir

-- The conditions that the validation leaves outside development.
passed_checks :
    (audience : Bool) (dir key : Bool) (a b c : String)
    → (if not audience then some a else if dir then some b else if key then some c else none) ≡ none
    → (audience ≡ true) × (dir ≡ false) × (key ≡ false)
passed_checks audience dir key a b c h = ground arith

-- A service that has started in development has options to decode tokens with and a directory for
-- artifacts; one that has started in another environment has them too, with an audience that is
-- verified and with a key that is not the published one.
pub settings_validated :
    (paths : Paths) (s : Settings) (t : Tx)
    → validate_runtime_environment paths s ≡ none
    → is_blank paths.var_artifacts ≡ false
    → ((p : String) → is_blank (paths.abspath p) ≡ false)
    → ((options : DecodeOptions) × (decode_options s (non_blank s.oidc_audience) t
          ≡ (ok options, t)))
      × (is_blank (effective_artifacts_dir paths s) ≡ false)
      × ((is_development s ≡ true)
          ⊎ ((is_some (non_blank s.oidc_audience) ≡ true)
              × ((s.secret_encryption_key =s= default_secret_encryption_key) ≡ false)))
unfolding validate_runtime_environment effective_artifacts_dir
settings_validated paths s t h k f = elim (Bool-cases (is_development s)) [
  | inl dev ↦ (
    options_exist s (non_blank s.oidc_audience) t (rw dev),
    dir_exists paths s (non_blank s.artifacts_dir) dev k f,
    inl dev,
  )
  | inr other ↦
      let (audience, dir, key) =
        passed_checks (is_some (non_blank s.oidc_audience))
          (is_blank (effective_artifacts_dir paths s))
          (s.secret_encryption_key =s= default_secret_encryption_key) _ _ _ (rw other at h) in
      (options_exist s (non_blank s.oidc_audience) t (ground arith), dir, inr (audience, key))
]
