-- ===== src/Core/Quotas/Admission.antt =====
-- What the quotas of apps/api/app/core/quotas.py admit.
use hamicloud.Models.Db.{insert_reservation, expire_reservations}
use hamicloud.Session.{stage}
use hamicloud.Session.Effect.{neutral_rules, stage-Neutral, pure-Neutral, Neutral}
use hamicloud.Models.Tenancy.{Time, Uuid}
use hamicloud.Prelude.{refl, true, false, Option, none, Bool, ℕ}
use hamicloud.Core.Quotas.{
  enforce_workspace_quota, usage_for_admission, get_workspace_quota_summary, reserve_if,
}
use hamicloud.Session.Atomic.{Quiet, quiet_rules, pure-Quiet}
use hamicloud.Models.Records.{QuotaResourceClass, QuotaReservation}
use hamicloud.Env.{Env}

reserve_if-Quiet : (b : Bool) (r : QuotaReservation) → Quiet (reserve_if b r)
reserve_if-Quiet false r = pure-Quiet none
reserve_if-Quiet true r = search quiet_rules

summary-Quiet : (env : Env) (ws : Uuid) → Quiet (get_workspace_quota_summary env ws)
unfolding get_workspace_quota_summary
summary-Quiet env ws = search quiet_rules

usage-Quiet : (env : Env) (ws : Uuid) (app : Option Uuid) → Quiet (usage_for_admission env ws app)
unfolding usage_for_admission
usage-Quiet env ws app = search (quiet_rules, summary-Quiet)

pub quota-Quiet :
    (env : Env) (n : ℕ) (ws : Uuid) (c : QuotaResourceClass) (app : Option Uuid) (reserve : Bool)
    → Quiet (enforce_workspace_quota env n ws c app reserve)
unfolding enforce_workspace_quota
quota-Quiet env n ws c app reserve = search (quiet_rules, usage-Quiet, reserve_if-Quiet) depth 12

expire-Neutral : (ws : Uuid) (now : Time) → Neutral (stage (expire_reservations ws now))
expire-Neutral ws now = stage-Neutral (expire_reservations ws now) refl

reserve-Neutral : (r : QuotaReservation) → Neutral (stage (insert_reservation r))
reserve-Neutral r = stage-Neutral (insert_reservation r) refl

reserve_if-Neutral : (b : Bool) (r : QuotaReservation) → Neutral (reserve_if b r)
reserve_if-Neutral false r = pure-Neutral none
reserve_if-Neutral true r = search (neutral_rules, reserve-Neutral)

summary-Neutral : (env : Env) (ws : Uuid) → Neutral (get_workspace_quota_summary env ws)
unfolding get_workspace_quota_summary
summary-Neutral env ws = search (neutral_rules, expire-Neutral)

usage-Neutral :
    (env : Env) (ws : Uuid) (app : Option Uuid) → Neutral (usage_for_admission env ws app)
unfolding usage_for_admission
usage-Neutral env ws app = search (neutral_rules, summary-Neutral)

pub quota-Neutral :
    (env : Env) (n : ℕ) (ws : Uuid) (c : QuotaResourceClass) (app : Option Uuid) (reserve : Bool)
    → Neutral (enforce_workspace_quota env n ws c app reserve)
unfolding enforce_workspace_quota
quota-Neutral env n ws c app reserve =
    search (neutral_rules, usage-Neutral, reserve_if-Neutral) depth 12
