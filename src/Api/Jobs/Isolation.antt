-- ===== src/Api/Jobs/Isolation.antt =====
-- Tenant isolation in apps/api/app/api/v1/jobs.py: to a stranger a job is as if it were not there.
use hamicloud.Env.{Env}
use hamicloud.Api.Jobs.Reads.{get_job_output, get_job}
use hamicloud.Models.Jobs.{Job}
use hamicloud.Prelude.{[], Bool, String, ap, some, arith, ◌⊎◌, inr, none, inl, ◌≡◌}
use hamicloud.Models.Tenancy.{developer, viewer, WorkspaceRole, Uuid}
use hamicloud.Schemas.{Caller}
use hamicloud.Api.Jobs.{rerun_job, cancel_job, load_job, job_with}
use hamicloud.Core.Auth.Access.{membership, authorize_decides}
use hamicloud.Session.{continue, ◌>>=◌, serve, M, Result, Tx, raised, text}
use hamicloud.Models.Db.{Db}

-- Nobody with this subject may see a job with this identifier.
abbrev pub Hidden : Caller → Uuid → Db → Type 0
Hidden caller id d =
    (job_with id d ≡ none)
    ⊎ ((j : Job) × (job_with id d ≡ some j) × (membership caller j.workspace_id d ≡ none))

load_job-Hidden :
    (caller : Caller) (id : Uuid) (r : WorkspaceRole) (t : Tx)
    → Hidden caller id t.db
    → load_job caller id r t ≡ (raised (record { status = 404; detail = text "Job not found" }), t)
unfolding load_job
load_job-Hidden caller id r t (inl absent) = rw absent
load_job-Hidden caller id r t (inr (j, there, stranger)) =
    ground (arith, authorize_decides caller j.workspace_id r "Job not found" t)

module _ {A : Type 0} (caller : Caller) (id : Uuid) (r : WorkspaceRole) (f : Job → M A) where
  stops_at_lookup :
      (t : Tx)
      → Hidden caller id t.db
      → (load_job caller id r >>= f) t
        ≡ (raised (record { status = 404; detail = text "Job not found" }), t)
  stops_at_lookup t h = ap (λ x. continue f x.0 x.1) (load_job-Hidden caller id r t h)

abbrev pub job_not_found : {A : Type 0} → Db → Result A × Db
job_not_found d = (raised (record { status = 404; detail = text "Job not found" }), d)

-- To a caller who is no member of a job's workspace every endpoint of the job answers as it does for
-- an identifier that no job has, with the same 404, and the database stays as it was: reading the
-- job, reading its output, cancelling it and running it again.
pub jobs_isolated :
    (env : Env) (caller : Caller) (id : Uuid) (key base : String) (is_file : String → Bool)
    (others : Db → Db) (d : Db)
    → Hidden caller id d
    → (serve others (get_job caller id) d ≡ job_not_found d)
      × (serve others (get_job_output base is_file env.text_of caller id) d ≡ job_not_found d)
      × (serve others (cancel_job env caller id key) d ≡ job_not_found d)
      × (serve others (rerun_job env caller id key) d ≡ job_not_found d)
unfolding serve get_job get_job_output cancel_job rerun_job
jobs_isolated env caller id key base is_file others d h =
    let t : Tx = record { db = d; staged = []; others = others } in
    (
      ap (λ x. (x.0, x.1.db)) (stops_at_lookup caller id viewer _ t h),
      ap (λ x. (x.0, x.1.db)) (stops_at_lookup caller id viewer _ t h),
      ap (λ x. (x.0, x.1.db)) (stops_at_lookup caller id developer _ t h),
      ap (λ x. (x.0, x.1.db)) (stops_at_lookup caller id developer _ t h),
    )
