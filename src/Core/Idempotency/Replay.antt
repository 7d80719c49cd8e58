-- ===== src/Core/Idempotency/Replay.antt =====
-- When apps/api/app/core/idempotency.py replays a stored response.
use hamicloud.Session.{stage}
use hamicloud.Session.Effect.{neutral_rules, stage-Neutral, Neutral}
use hamicloud.Models.Tenancy.{Uuid}
use hamicloud.Prelude.{refl, none, some, Option}
use hamicloud.Core.Idempotency.{
  Request, check_idempotency, check_existing, handle_idempotency_race, race_replay,
}
use hamicloud.Models.Records.{IdempotencyRecord}
use hamicloud.Models.Db.{delete_idempotency, Constraint}
use hamicloud.Session.Atomic.{Quiet, quiet_rules}
use hamicloud.Env.{Env}

check_existing-Quiet :
    (env : Env) (r : Request) (o : Option IdempotencyRecord) → Quiet (check_existing env r o)
check_existing-Quiet env r none = search quiet_rules
check_existing-Quiet env r (some x) = search quiet_rules depth 8

pub check_idempotency-Quiet : (env : Env) (r : Request) → Quiet (check_idempotency env r)
unfolding check_idempotency
check_idempotency-Quiet env r = search (quiet_rules, check_existing-Quiet)

race_replay-Quiet : (r : Request) (o : Option IdempotencyRecord) → Quiet (race_replay r o)
race_replay-Quiet r none = search quiet_rules
race_replay-Quiet r (some x) = search quiet_rules

pub race-Quiet : (c : Constraint) (r : Request) → Quiet (handle_idempotency_race c r)
unfolding handle_idempotency_race
race-Quiet c r = search (quiet_rules, race_replay-Quiet) depth 9

delete-Neutral : (id : Uuid) → Neutral (stage (delete_idempotency id))
delete-Neutral id = stage-Neutral (delete_idempotency id) refl

check_existing-Neutral :
    (env : Env) (r : Request) (o : Option IdempotencyRecord) → Neutral (check_existing env r o)
check_existing-Neutral env r none = search neutral_rules
check_existing-Neutral env r (some x) = search (neutral_rules, delete-Neutral) depth 8

pub check_idempotency-Neutral : (env : Env) (r : Request) → Neutral (check_idempotency env r)
unfolding check_idempotency
check_idempotency-Neutral env r = search (neutral_rules, check_existing-Neutral)
