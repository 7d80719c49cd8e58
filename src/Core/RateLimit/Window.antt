-- ===== src/Core/RateLimit/Window.antt =====
-- What the rate limit of apps/api/app/core/rate_limit.py admits.
use hamicloud.Session.{raised, ok, Tx, Result}
use hamicloud.Session.Effect.{neutral_rules, Neutral}
use hamicloud.Prelude.{
  false, arith, zero, leb, one_if, min, ◌+◌, true, ◌≡◌, suc, ◌≤◌, Bool, ℕ, String,
}
use hamicloud.Models.Tenancy.{Uuid}
use hamicloud.Core.RateLimit.{check_workspace_rate_limit, check_reply}
use hamicloud.Session.Atomic.{Quiet, quiet_rules}
use hamicloud.Env.{counted, Env, Settings, RedisReply, no_client}

check_reply-Quiet : (s : Settings) (r : RedisReply) → Quiet (check_reply s r)
check_reply-Quiet s no_client = search quiet_rules
check_reply-Quiet s _ = search quiet_rules

pub rate_limit-Quiet :
    (env : Env) (ws : Uuid) (route : String) → Quiet (check_workspace_rate_limit env ws route)
unfolding check_workspace_rate_limit
rate_limit-Quiet env ws route = search (quiet_rules, check_reply-Quiet)

check_reply-Neutral : (s : Settings) (r : RedisReply) → Neutral (check_reply s r)
check_reply-Neutral s no_client = search neutral_rules
check_reply-Neutral s _ = search neutral_rules

pub rate_limit-Neutral :
    (env : Env) (ws : Uuid) (route : String) → Neutral (check_workspace_rate_limit env ws route)
unfolding check_workspace_rate_limit
rate_limit-Neutral env ws route = search (neutral_rules, check_reply-Neutral)

abbrev is_ok : {A : Type 0} → Result A → Bool
is_ok (ok a) = true
is_ok (raised e) = false

-- Whether the request passes that Redis counts as the kth of its window.
unfoldable passes : Env → Uuid → String → Tx → ℕ → Bool
unfolding check_workspace_rate_limit
passes env ws route t k =
    is_ok (check_workspace_rate_limit (record env { redis = λ key. counted k }) ws route t).0

-- How many of the first n requests of a window pass.
unfoldable pub admitted_requests : Env → Uuid → String → Tx → ℕ → ℕ
unfolding passes
admitted_requests env ws route t zero = 0
admitted_requests env ws route t (suc n) =
    admitted_requests env ws route t n + one_if (passes env ws route t (suc n))

passes_within :
    (env : Env) (ws : Uuid) (route : String) (t : Tx) (k : ℕ)
    → 1 ≤ env.settings.rate_limit_requests_per_minute
    → passes env ws route t k ≡ leb k env.settings.rate_limit_requests_per_minute
unfolding passes check_workspace_rate_limit
passes_within env ws route t k h = ground arith

-- Of the first requests of a window exactly as many pass as the limit says, where the limit is not
-- zero and Redis counts each of them.
pub admitted_min :
    (env : Env) (ws : Uuid) (route : String) (t : Tx) (n : ℕ)
    → 1 ≤ env.settings.rate_limit_requests_per_minute
    → admitted_requests env ws route t n ≡ min n env.settings.rate_limit_requests_per_minute
unfolding admitted_requests
admitted_min env ws route t zero h = omega arith
admitted_min env ws route t (suc n) h =
    ground (arith, passes_within env ws route t (suc n) h, admitted_min env ws route t n h)
