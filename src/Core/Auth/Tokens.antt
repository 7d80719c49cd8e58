-- ===== src/Core/Auth/Tokens.antt =====
-- `get_caller` and `decode_oidc_token` of apps/api/app/core/auth.py.
use hamicloud.Schemas.{Caller}
use hamicloud.Session.{text, raise, found, pure, ◌>>=◌, M}
use hamicloud.Prelude.{
  is_blank, if◌then◌else◌, none, ◌=s=◌, Bool, after_char, some, String, before_char, List, Option,
  strip,
}
use hamicloud.Env.{Settings, Env}
use mathlib.Core.Option

-- The claims that are read of a token.
pub record Claims : Type 0 where
  pub sub : Option String

-- What PyJWT raises, and any other exception.
pub data JwtError : Type 0 where
  expired_signature invalid_issuer invalid_audience other_jwt_error other_exception : JwtError

pub data Reply (A : Type 0) : Type 0 where
  got : A → Reply A
  refused : JwtError → Reply A

-- The options of `jwt.decode`; no audience where its verification is switched off.
pub record DecodeOptions : Type 0 where
  pub algorithms : List String
  pub issuer : String
  pub audience : Option String

-- PyJWT and its JWKS client; a key is a text.
pub record Jwt : Type 0 where
  pub get_signing_key : String → Reply String
  pub decode : String → String → DecodeOptions → Reply Claims

abbrev pub token_error : JwtError → String
token_error expired_signature = "Token has expired"
token_error invalid_issuer = "Invalid token issuer"
token_error invalid_audience = "Invalid token audience"
token_error other_jwt_error = "Invalid token"
token_error other_exception = "Unable to verify token"

abbrev pub checked : {A : Type 0} → Reply A → M A
checked (got a) = pure a
checked (refused e) = raise 401 (text (token_error e))

-- `if text` of an optional text: the text, where it is there and is not empty.
abbrev pub non_blank : Option String → Option String
non_blank none = none
non_blank (some s) = if is_blank s then none else some s

abbrev pub options_for : Settings → Option String → DecodeOptions
options_for s audience = record {
  algorithms = s.oidc_algorithms;
  issuer = s.oidc_issuer_url;
  audience = audience;
}

abbrev pub is_development : Settings → Bool
is_development s = s.environment =s= "development"

-- The audience that is verified: the configured one, or none in development.
abbrev pub decode_options : Settings → Option String → M DecodeOptions
decode_options s (some audience) = pure (options_for s (some audience))
decode_options s none =
    if is_development s
    then pure (options_for s none)
    else raise 401 (text "OIDC_AUDIENCE is required in non-development environment")

unfoldable pub decode_oidc_token : Settings → Jwt → String → M Claims
decode_oidc_token s jwt token = do
  key ← checked (jwt.get_signing_key token)
  options ← decode_options s (non_blank s.oidc_audience)
  checked (jwt.decode token key options)

-- The token of an Authorization header: `authorization.split(" ", 1)`, with the scheme Bearer.
abbrev pub token_of : (String → String) → String → Option String → Option String
token_of lower scheme none = none
token_of lower scheme (some rest) =
    if lower scheme =s= "bearer" then non_blank (some (strip rest)) else none

unfoldable pub bearer_token : (String → String) → String → Option String
unfolding before_char after_char strip
bearer_token lower authorization =
    token_of lower (before_char b' ' authorization) (after_char b' ' authorization)

abbrev pub caller_of : Claims → M Caller
caller_of claims = do
  sub ← found (non_blank claims.sub) 401 (text "Token missing subject claim")
  pure (record { subject = sub })

unfoldable pub caller_of_header : Env → Jwt → String → M Caller
unfolding bearer_token decode_oidc_token
caller_of_header env jwt authorization = do
  token ←
      found (bearer_token env.lower authorization) 401 (text "Invalid authorization header format")
  claims ← decode_oidc_token env.settings jwt token
  caller_of claims

-- The X-Dev-Subject header, in development alone.
unfoldable pub dev_caller : Settings → Option String → M Caller
unfolding strip
dev_caller s x_dev_subject =
    if is_development s
    then (do
      subject ←
          found (non_blank (Option.map strip x_dev_subject)) 401 (text "Authentication required")
      pure (record { subject = subject }))
    else raise 401 (text "Authentication required")

unfoldable pub caller_from : Env → Jwt → Option String → Option String → M Caller
unfolding caller_of_header dev_caller
caller_from env jwt (some authorization) x_dev_subject = caller_of_header env jwt authorization
caller_from env jwt none x_dev_subject = dev_caller env.settings x_dev_subject

unfoldable pub get_caller : Env → Jwt → Option String → Option String → M Caller
unfolding caller_from
get_caller env jwt authorization x_dev_subject =
    caller_from env jwt (non_blank authorization) x_dev_subject
