-- ===== src/Api/Jobs/Atomicity.antt =====
-- The job endpoints of apps/api/app/api/v1/jobs.py either answer or change nothing.
use hamicloud.Core.StateMachine.{accepted, Verdict}
use hamicloud.Models.Db.{Db}
use hamicloud.Core.Events.{Headers}
use hamicloud.Models.Json.{Fields}
use hamicloud.Models.Jobs.{Job}
use hamicloud.Core.Idempotency.{accepted_response, Request}
use hamicloud.Models.Records.{AcceptedOperationResponse}
use hamicloud.Models.Tenancy.{WorkspaceRole, Uuid}
use hamicloud.Prelude.{[], ◌⊎◌, ◌⊎◌, ◌≡◌, none, String, refl, some, ℕ, Option}
use hamicloud.Schemas.{SubmitJobRequest, Caller}
use hamicloud.Api.Jobs.{
  submit_job, cancel_job, rerun_job, load_job, enqueue_job, commit_or_replay, after_commit,
  unless_cached, request_cancellation,
}
use hamicloud.Session.Atomic.{
  Quiet, Atomic, quiet_rules, atomic_rules, commit-Atomic, pure-Quiet, bind-Atomic, Quiet-Atomic,
}
use hamicloud.Session.{◌>>=◌, commit, serve, M, raised, HttpError}
use hamicloud.Core.Auth.Access.{authorize-Quiet}
use hamicloud.Core.RateLimit.Window.{rate_limit-Quiet}
use hamicloud.Core.ImagePolicy.Allowed.{image_policy-Quiet}
use hamicloud.Core.Audit.Redaction.{audit-Quiet}
use hamicloud.Core.Idempotency.Replay.{check_idempotency-Quiet, race-Quiet}
use hamicloud.Core.Quotas.Admission.{quota-Quiet}
use hamicloud.Env.{Env}

pub ruleset service_rules = (
  atomic_rules, authorize-Quiet, rate_limit-Quiet, image_policy-Quiet, audit-Quiet,
  check_idempotency-Quiet, quota-Quiet,
)

unless_cached-Atomic :
    (o : Option AcceptedOperationResponse) (rest : M AcceptedOperationResponse)
    → Atomic rest
    → Atomic (unless_cached o rest)
unless_cached-Atomic none rest h = h
unless_cached-Atomic (some r) rest h = Quiet-Atomic (pure-Quiet r)

finish-Atomic :
    (env : Env) (req : Request) (op : Uuid)
    → Atomic (commit >>= after_commit req (accepted_response env op))
finish-Atomic env req op =
    commit-Atomic (after_commit req (accepted_response env op)) (accepted_response env op) refl
      (λ c. race-Quiet c req)

pub commit_or_replay-Atomic :
    (env : Env) (n : ℕ) (req : Request) (op : Uuid) → Atomic (commit_or_replay env n req op)
unfolding commit_or_replay
commit_or_replay-Atomic env n req op = search (atomic_rules, finish-Atomic)

enqueue-Atomic :
    (env : Env) (caller : Caller) (req : Request) (j : Job) (parent : Option Uuid) (action : String)
    (details : Fields) (headers : Headers)
    → Atomic (enqueue_job env caller req j parent action details headers)
unfolding enqueue_job
enqueue-Atomic env caller req j parent action details headers =
    search (service_rules, commit_or_replay-Atomic)

load_job-Quiet : (caller : Caller) (id : Uuid) (r : WorkspaceRole) → Quiet (load_job caller id r)
unfolding load_job
load_job-Quiet caller id r = search service_rules

submit-Atomic :
    (env : Env) (caller : Caller) (ws : Uuid) (p : SubmitJobRequest) (key : String)
    → Atomic (submit_job env caller ws p key)
unfolding submit_job
submit-Atomic env caller ws p key =
    search (service_rules, unless_cached-Atomic, enqueue-Atomic) depth 12

request_cancellation-Quiet :
    (env : Env) (caller : Caller) (j : Job) (key : String) (v : Verdict)
    → Quiet (request_cancellation env caller j key v)
request_cancellation-Quiet env caller j key accepted = search service_rules
request_cancellation-Quiet env caller j key _ = search service_rules

ruleset job_rules = (
  service_rules, load_job-Quiet, unless_cached-Atomic, enqueue-Atomic, commit_or_replay-Atomic,
  request_cancellation-Quiet,
)

cancel-Atomic :
    (env : Env) (caller : Caller) (id : Uuid) (key : String) → Atomic (cancel_job env caller id key)
unfolding cancel_job
cancel-Atomic env caller id key = search job_rules depth 12

rerun-Atomic :
    (env : Env) (caller : Caller) (id : Uuid) (key : String) → Atomic (rerun_job env caller id key)
unfolding rerun_job
rerun-Atomic env caller id key = search job_rules depth 12

-- A mutating request of the jobs router.
pub data JobCommand : Type 0 where
  submit : Uuid → SubmitJobRequest → JobCommand
  cancel rerun : Uuid → JobCommand

abbrev pub run_command : Env → Caller → String → JobCommand → M AcceptedOperationResponse
run_command env caller key (submit ws p) = submit_job env caller ws p key
run_command env caller key (cancel id) = cancel_job env caller id key
run_command env caller key (rerun id) = rerun_job env caller id key

command-Atomic :
    (env : Env) (caller : Caller) (key : String) (c : JobCommand)
    → Atomic (run_command env caller key c)
command-Atomic env caller key (submit ws p) = submit-Atomic env caller ws p key
command-Atomic env caller key (cancel id) = cancel-Atomic env caller id key
command-Atomic env caller key (rerun id) = rerun-Atomic env caller id key

-- A submission, cancellation or rerun that ends in an error has written nothing: afterwards the
-- database is what it was before the request, or what the other transactions made of it.
pub jobs_atomic :
    (env : Env) (caller : Caller) (key : String) (c : JobCommand) (others : Db → Db) (d : Db)
    (e : HttpError)
    → (serve others (run_command env caller key c) d).0 ≡ raised e
    → ((serve others (run_command env caller key c) d).1 ≡ d)
      ⊎ ((serve others (run_command env caller key c) d).1 ≡ others d)
unfolding serve
jobs_atomic env caller key c others d e h =
    (command-Atomic env caller key c).unchanged (record { db = d; staged = []; others = others }) e
      h
