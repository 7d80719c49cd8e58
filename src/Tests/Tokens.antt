-- ===== src/Tests/Tokens.antt =====
-- The theorems on callers and secrets, at small concrete data.
use hamicloud.Core.Config.{effective_artifacts_dir, Paths, validate_runtime_environment}
use hamicloud.Core.Crypto.Sealed.{secret_sealed, Documented}
use hamicloud.Core.Auth.Verified.{caller-LetIn, LetIn}
use hamicloud.Core.Crypto.{plaintext, encrypt_secret, Primitives, decrypt_secret, Bytes}
use hamicloud.Session.{ok, alone, Tx}
use hamicloud.Prelude.{
  ◌+s◌, true, false, drop, ap, is_space, rstrip, lstrip, strip, after_char, or_default, ◌&&◌,
  before_char, ◌=s=◌, refl, ◌==◌, zero, [], ◌+◌, if◌then◌else◌, ◌∙◌, arith, none, suc, ◌∷◌, ◌≡◌,
  some, ◌%◌, text_length, String, ℕ,
}
use hamicloud.Tests.Data.{dan, test_db, test_env}
use hamicloud.Core.Auth.Tokens.{
  invalid_audience, refused, decode_oidc_token, bearer_token, Claims, caller_of_header, Reply,
  DecodeOptions, got, caller_from, Jwt, get_caller,
}
use hamicloud.Env.{Settings, default_settings, Env}
use Prim.Native.Char.{Char, char, code}

abbrev oidc_env : Env
oidc_env = record test_env {
  settings = record default_settings { oidc_audience = some "hamicloud" };
}

-- A library that knows one token, and verifies its audience.
abbrev jwt_decoder : String → DecodeOptions → Reply Claims
jwt_decoder token options =
    if token =s= "t1" && or_default options.audience "" =s= "hamicloud"
    then got (record { sub = some "dan" })
    else refused invalid_audience

abbrev jwt : Jwt
jwt = record {
  get_signing_key = λ token. got "key";
  decode = λ token key options. jwt_decoder token options;
}

abbrev pub origin : Tx
origin = record { db = test_db; staged = []; others = alone }

dan_enters : (get_caller oidc_env jwt (some "bearer t1") none origin).0 ≡ ok dan
unfolding get_caller caller_from caller_of_header bearer_token decode_oidc_token before_char
    after_char strip lstrip rstrip is_space
dan_enters = refl

caller-LetIn_example : LetIn oidc_env jwt (some "bearer t1") none dan
caller-LetIn_example = caller-LetIn oidc_env jwt (some "bearer t1") none dan origin dan_enters

-- Base64's blocks of four, in a plainer code: a byte in unary.
abbrev block : Char → String → String
block c s = String.◌∷◌ c (String.◌∷◌ c (String.◌∷◌ c (String.◌∷◌ c s)))

unfoldable pub unary : ℕ → String → String
unary zero s = block (char 66 tt) s
unary (suc n) s = block (char 65 tt) (unary n s)

unfoldable encoded : Bytes → String
unfolding unary
encoded [] = String.[]
encoded (b ∷ bs) = unary b (encoded bs)

unfoldable pub decoded_from : ℕ → String → Bytes
decoded_from n (String.◌∷◌ c (String.◌∷◌ _ (String.◌∷◌ _ (String.◌∷◌ _ s)))) = elim (code c == 65) [
  | true ↦ decoded_from (suc n) s
  | false ↦ n ∷ decoded_from 0 s
]
decoded_from n other = []

pub unary_back : (b n : ℕ) (s : String) → decoded_from n (unary b s) ≡ (n + b) ∷ decoded_from 0 s
unfolding decoded_from unary
unary_back zero n s = ap (λ m. m ∷ decoded_from 0 s) (omega arith)
unary_back (suc b) n s = unary_back b (suc n) s ∙ ap (λ m. m ∷ decoded_from 0 s) (omega arith)

encoded_back : (bs : Bytes) → decoded_from 0 (encoded bs) ≡ bs
unfolding encoded decoded_from
encoded_back [] = refl
encoded_back (b ∷ bs) =
    unary_back b 0 (encoded bs)
    ∙ ap (λ l. (0 + b) ∷ l) (encoded_back bs)
    ∙ ap (λ m. m ∷ bs) (omega arith)

pub unary_blocks : (b : ℕ) (s : String) → text_length s % 4 ≡ 0 → text_length (unary b s) % 4 ≡ 0
unfolding unary text_length
unary_blocks zero s h = omega arith
unary_blocks (suc b) s h = omega (arith, unary_blocks b s h)

encoded_blocks : (bs : Bytes) → text_length (encoded bs) % 4 ≡ 0
unfolding encoded text_length
encoded_blocks [] = refl
encoded_blocks (b ∷ bs) = unary_blocks b (encoded bs) (encoded_blocks bs)

unfoldable sealer : Primitives
unfolding encoded decoded_from
sealer = record {
  utf8 = λ s. text_length s ∷ [];
  from_utf8 = λ b. some "hunter2";
  urlsafe_b64encode = encoded;
  urlsafe_b64decode = λ s. some (decoded_from 0 s);
  sha256 = λ b. b;
  gcm_encrypt = λ key nonce text aad.
      1 ∷ 2 ∷ 3 ∷ 4 ∷ 5 ∷ 6 ∷ 7 ∷ 8 ∷ 9 ∷ 10 ∷ 11 ∷ 12 ∷ 13 ∷ 14 ∷ 15 ∷ 16 ∷ text;
  gcm_decrypt = λ key nonce text aad. some (drop 16 text);
  text_of = λ id. "id";
}

sealer-Documented : Documented sealer
unfolding sealer
sealer-Documented = record {
  b64_back = λ b. ap some (encoded_back b);
  b64_blocks = encoded_blocks;
  gcm_back = λ key nonce text aad. refl;
  gcm_tag = λ key nonce text aad. omega arith;
}

abbrev nonce : Bytes
nonce = 1 ∷ 2 ∷ 3 ∷ 4 ∷ 5 ∷ 6 ∷ 7 ∷ 8 ∷ 9 ∷ 10 ∷ 11 ∷ 12 ∷ []

secret_sealed_example :
    decrypt_secret sealer default_settings
      (encrypt_secret sealer default_settings nonce "hunter2" (some 1) (some "token") none)
      (some 1)
      (some "token")
      none
    ≡ plaintext "hunter2"
unfolding sealer
secret_sealed_example =
    secret_sealed sealer sealer-Documented default_settings (some 1) (some "token") none nonce
      "hunter2" refl refl

abbrev live_settings : Settings
live_settings = record default_settings {
  oidc_audience = some "hamicloud";
  artifacts_dir = some "/var/artifacts";
  secret_encryption_key = "another key";
}

abbrev paths : Paths
paths = record { abspath = λ p. "/" +s p; var_artifacts = "/repo/var/artifacts" }

live_passes : validate_runtime_environment paths live_settings ≡ none
unfolding validate_runtime_environment effective_artifacts_dir
live_passes = refl
