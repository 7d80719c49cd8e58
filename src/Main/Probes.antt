-- ===== src/Main/Probes.antt =====
-- The probes of apps/api/app/main.py.
pub mod Ready
use hamicloud.Prelude.{
  none, ◌==◌, some, true, ◌&&◌, false, [], Bool, ℕ, String, if◌then◌else◌, Option,
}
use hamicloud.Models.Tenancy.{Time}
use hamicloud.Models.Json.{boolean, field, end, Json}
use hamicloud.Main.Errors.{Body, dictionary, RequestState, ErrorAnswer, http_exception_handler}

pub record HealthResponse : Type 0 where
  pub status : String
  pub version : String
  pub timestamp : Time

pub record ReadinessResponse : Type 0 where
  pub ready : Bool
  pub database : Bool
  pub redis : Bool
  pub timestamp : Time

-- What `SELECT 1` gives: an exception, or its scalar.
pub data DatabaseReply : Type 0 where
  database_raises : DatabaseReply
  scalar : Option ℕ → DatabaseReply

-- What the ping of the client in the service's state gives.
pub data PingReply : Type 0 where
  no_redis ping_raises : PingReply
  pong : Bool → PingReply

unfoldable pub healthz : String → Time → HealthResponse
healthz version now = record { status = "ok"; version = version; timestamp = now }

abbrev is_one : Option ℕ → Bool
is_one none = false
is_one (some n) = n == 1

unfoldable pub database_ok : DatabaseReply → Bool
database_ok database_raises = false
database_ok (scalar value) = is_one value

unfoldable pub redis_ok : PingReply → Bool
redis_ok (pong b) = b
redis_ok no_redis = false
redis_ok ping_raises = false

abbrev pub not_ready : Bool → Bool → Body
not_ready db redis = dictionary (
    field "message" (Json.text "Platform dependencies are not ready")
      (field "database" (boolean db) (field "redis" (boolean redis) end)))

-- The response, or the HTTPException's status and detail.
pub data Probed : Type 0 where
  answered : ReadinessResponse → Probed
  refused : ℕ → Body → Probed

unfoldable pub readyz : Time → DatabaseReply → PingReply → Probed
unfolding database_ok redis_ok
readyz now db ping =
    let db_up = database_ok db in
    let redis_up = redis_ok ping in
    if db_up && redis_up
    then answered (record { ready = true; database = db_up; redis = redis_up; timestamp = now })
    else refused 503 (not_ready db_up redis_up)

-- What the caller of the probe gets: the response, or the answer of the exception's handler.
pub data ProbeAnswer : Type 0 where
  ready_answer : ReadinessResponse → ProbeAnswer
  error_answer : ErrorAnswer → ProbeAnswer

abbrev pub probe_answer : (Json → String) → RequestState → Probed → ProbeAnswer
probe_answer str r (answered response) = ready_answer response
probe_answer str r (refused status body) =
    error_answer (http_exception_handler str r status body [])
