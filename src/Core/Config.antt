-- ===== src/Core/Config.antt =====
-- The derived settings of apps/api/app/core/config.py, and their validation when the service starts.
pub mod Validated
use hamicloud.Core.Auth.Tokens.{is_development, non_blank}
use hamicloud.Prelude.{
  ◌=s=◌, ◌==◌, is_some, not, ◌&&◌, is_blank, none, ◌+s◌, or_default, some, if◌then◌else◌, Option,
  String,
}
use hamicloud.Env.{default_secret_encryption_key, Settings}
use Prim.Native.Char.{code}

-- `os.path.abspath`, and the directory var/artifacts of the repository.
pub record Paths : Type 0 where
  pub abspath : String → String
  pub var_artifacts : String

-- `text.rstrip('/')`
unfoldable pub rstrip_slash : String → String
rstrip_slash String.[] = String.[]
rstrip_slash (String.◌∷◌ c s) =
    let rest = rstrip_slash s in
    if is_blank rest && code c == b'/' then String.[] else String.◌∷◌ c rest

unfoldable pub effective_jwks_url : Settings → String
unfolding rstrip_slash
effective_jwks_url s =
    or_default (non_blank s.oidc_jwks_url)
      (rstrip_slash s.oidc_issuer_url +s "/protocol/openid-connect/certs")

abbrev pub default_artifacts_dir : Paths → Settings → String
default_artifacts_dir paths s = if is_development s then paths.var_artifacts else ""

abbrev pub artifacts_dir_or : Paths → Settings → Option String → String
artifacts_dir_or paths s none = default_artifacts_dir paths s
artifacts_dir_or paths s (some dir) = paths.abspath dir

unfoldable pub effective_artifacts_dir : Paths → Settings → String
effective_artifacts_dir paths s = artifacts_dir_or paths s (non_blank s.artifacts_dir)

-- The text of the RuntimeError, if the service refuses to start.
unfoldable pub validate_runtime_environment : Paths → Settings → Option String
unfolding effective_artifacts_dir
validate_runtime_environment paths s =
    if is_development s
    then none
    else if not (is_some (non_blank s.oidc_audience))
    then some "OIDC_AUDIENCE is required when ENVIRONMENT is not development"
    else if is_blank (effective_artifacts_dir paths s)
    then some "ARTIFACTS_DIR is required when ENVIRONMENT is not development"
    else if s.secret_encryption_key =s= default_secret_encryption_key
    then some
        "SECRET_ENCRYPTION_KEY must be changed from the default when ENVIRONMENT is not development"
    else none
