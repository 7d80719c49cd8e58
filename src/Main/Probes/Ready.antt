-- ===== src/Main/Probes/Ready.antt =====
-- What the readiness probe of apps/api/app/main.py tells.
use hamicloud.Models.Tenancy.{Time}
use hamicloud.Prelude.{
  inr, &&_both, none, inl, ap, refl, arith, Bool-cases, some, true, false, String, ◌≡◌, ◌&&◌,
}
use hamicloud.Main.Probes.{
  DatabaseReply, PingReply, scalar, pong, database_ok, redis_ok, readyz, probe_answer, ProbeAnswer,
  ready_answer, error_answer, no_redis, ping_raises, database_raises,
}
use hamicloud.Main.Reported.{detail_field}
use hamicloud.Main.Errors.{
  RequestState, http_exception_handler, error_details, custom_code, status_error_code, get_field,
  other_fields,
}
use hamicloud.Models.Json.{boolean, Json}

-- Both dependencies answer as they should.
abbrev pub IsUp : DatabaseReply → PingReply → Type 0
IsUp db ping = (db ≡ scalar (some 1)) × (ping ≡ pong true)

abbrev pub Tells : DatabaseReply → PingReply → ProbeAnswer → Type 0
Tells db ping (ready_answer a) =
    IsUp db ping × (a.ready ≡ true) × (a.database ≡ true) × (a.redis ≡ true)
Tells db ping (error_answer a) =
    (¬ IsUp db ping)
    × (a.status_code ≡ 503)
    × (a.error_code ≡ "SERVICE_UNAVAILABLE")
    × (detail_field "database" a.details ≡ some (boolean (database_ok db)))
    × (detail_field "redis" a.details ≡ some (boolean (redis_ok ping)))

database_up : (db : DatabaseReply) → database_ok db ≡ true → db ≡ scalar (some 1)
unfolding database_ok
database_up database_raises h = cc
database_up (scalar none) h = cc
database_up (scalar (some n)) h = let e : n ≡ 1 = ground arith in ap (λ k. scalar (some k)) e

redis_up : (ping : PingReply) → redis_ok ping ≡ true → ping ≡ pong true
unfolding redis_ok
redis_up no_redis h = cc
redis_up ping_raises h = cc
redis_up (pong b) h = ap pong h

not-IsUp :
    (db : DatabaseReply) (ping : PingReply)
    → (database_ok db && redis_ok ping) ≡ false
    → ¬ IsUp db ping
unfolding database_ok redis_ok
not-IsUp db ping h (d, p) = let up : (database_ok db && redis_ok ping) ≡ true = rw (d, p) refl in cc

-- The readiness probe answers that the service is ready exactly when SELECT 1 gives 1 and Redis
-- answers the ping; otherwise it answers 503 with the code SERVICE_UNAVAILABLE, and its details tell
-- which of the two is up.
pub readyz-Tells :
    (str : Json → String) (r : RequestState) (now : Time) (db : DatabaseReply) (ping : PingReply)
    → Tells db ping (probe_answer str r (readyz now db ping))
unfolding readyz http_exception_handler custom_code error_details get_field other_fields
    detail_field status_error_code
readyz-Tells str r now db ping = elim (Bool-cases (database_ok db && redis_ok ping)) [
  | inl up ↦
      let (d, p) = &&_both (database_ok db) (redis_ok ping) up in
      rw up ((database_up db d, redis_up ping p), refl, d, p)
  | inr down ↦ rw down (not-IsUp db ping down, refl, refl, refl, refl)
]
