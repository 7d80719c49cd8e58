-- ===== src/Core/RateLimit.antt =====
-- apps/api/app/core/rate_limit.py: a fixed window of one minute, counted by Redis.
pub mod Window
use hamicloud.Prelude.{ℕ, String, Bool, true, false, ◌||◌, not, ◌/◌, ltb, leb, if◌then◌else◌, ◌=s=◌}
use hamicloud.Models.Tenancy.{Uuid, seconds}
use hamicloud.Session.{M, pure, raise, raise_if, text, rate_limited}
use hamicloud.Env.{RateKey, Env, Settings, RedisReply, no_client, failing, counted}

-- Whether a missing store refuses the request.
abbrev pub fails_closed : Settings → Bool
fails_closed s = s.redis_fail_closed || not (s.environment =s= "development")

abbrev pub check_reply : Settings → RedisReply → M (Unit {0})
check_reply s (counted current) =
    raise_if (ltb s.rate_limit_requests_per_minute current) 429
      (rate_limited s.rate_limit_requests_per_minute)
check_reply s _ = raise_if (fails_closed s) 503 (text "Rate limiter store unavailable")

unfoldable pub check_workspace_rate_limit : Env → Uuid → String → M (Unit {0})
check_workspace_rate_limit env ws route =
    let key : RateKey = record {
      workspace_id = ws;
      route_class = route;
      bucket = env.now / seconds 60;
    } in
    if leb env.settings.rate_limit_requests_per_minute 0
    then pure tt
    else check_reply env.settings (env.redis key)
