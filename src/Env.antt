-- ===== src/Env.antt =====
-- What a request takes from outside the program: the settings (apps/api/app/core/config.py), the
-- clock, fresh UUIDs, and the answers of libraries and services. Each is a parameter; one request
-- reads one time.
use hamicloud.Prelude.{Option, none, ℕ, Bool, String, List, [], ◌∷◌}
use hamicloud.Models.Tenancy.{Uuid, Time}
use hamicloud.Schemas.{Payload}

abbrev pub default_secret_encryption_key : String
default_secret_encryption_key = "MDEyMzQ1Njc4OTAxMjM0NTY3ODkwMTIzNDU2Nzg5MDE="

pub record Settings : Type 0 where
  pub environment : String
  pub job_timeout_seconds : ℕ
  pub build_timeout_seconds : ℕ
  pub workspace_job_concurrency : ℕ
  pub workspace_service_cap : ℕ
  pub workspace_build_concurrency : ℕ
  pub workspace_pending_operations : ℕ
  pub rate_limit_requests_per_minute : ℕ
  pub redis_fail_closed : Bool
  pub approved_image_registries : List String
  pub approved_repository_hosts : List String
  pub oidc_issuer_url : String
  pub oidc_jwks_url : Option String
  pub oidc_audience : Option String
  pub oidc_algorithms : List String
  pub artifacts_dir : Option String
  pub secret_encryption_key : String

abbrev pub default_settings : Settings
default_settings = record {
  environment = "production";
  job_timeout_seconds = 600;
  build_timeout_seconds = 900;
  workspace_job_concurrency = 2;
  workspace_service_cap = 2;
  workspace_build_concurrency = 1;
  workspace_pending_operations = 100;
  rate_limit_requests_per_minute = 120;
  redis_fail_closed = Bool.false;
  approved_image_registries =
      "registry.example.com/" ∷ "ghcr.io/hami9/" ∷ "docker.io/library/" ∷ "quay.io/" ∷ "gcr.io/"
      ∷ "sha256:" ∷ [];
  approved_repository_hosts = "github.com" ∷ "gitlab.com" ∷ "bitbucket.org" ∷ [];
  oidc_issuer_url = "http://localhost:8080/realms/hamicloud";
  oidc_jwks_url = none;
  oidc_audience = none;
  oidc_algorithms = "RS256" ∷ "ES256" ∷ [];
  artifacts_dir = none;
  secret_encryption_key = default_secret_encryption_key;
}

-- What Redis answers to the INCR of a rate limit's counter: no client, an exception, or the count.
pub data RedisReply : Type 0 where
  no_client failing : RedisReply
  counted : ℕ → RedisReply

-- The parts of the key `hc:ratelimit:{workspace_id}:{route_class}:{bucket}`.
pub record RateKey : Type 0 where
  pub workspace_id : Uuid
  pub route_class : String
  pub bucket : ℕ

pub record Env : Type 0 where
  pub settings : Settings
  pub now : Time
  -- the nth `uuid.uuid4()` of the request
  pub uuid : ℕ → Uuid
  -- `str(uuid)`
  pub text_of : Uuid → String
  -- the SHA-256 of the payload's JSON
  pub payload_hash : Payload → String
  -- `str.lower`
  pub lower : String → String
  pub redis : RateKey → RedisReply
  -- `get_trace_context()`
  pub trace_context : List (String × String)
  -- AES-256-GCM under the configured key and a fresh nonce, with the workspace and the name bound in
  pub encrypt : String → Uuid → String → String
