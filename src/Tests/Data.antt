-- ===== src/Tests/Data.antt =====
-- A small database with two members, a job and an application, an environment and requests.
use hamicloud.Models.Records.{pending, cancellation, job_submitted, OutboxEvent}
use hamicloud.Env.{counted, default_settings, Env}
use hamicloud.Models.Tenancy.{developer, WorkspaceRole, owner, Uuid, WorkspaceMembership}
use hamicloud.Models.Apps.{healthy, http_service, Release, Application}
use hamicloud.Models.Db.{Db}
use hamicloud.Models.Jobs.{succeeded, Job}
use hamicloud.Schemas.{DeployReleaseRequest, Caller, SubmitJobRequest}
use hamicloud.Prelude.{◌+◌, none, some, [], ◌∷◌, String}

abbrev pub test_env : Env
test_env = record {
  settings = default_settings;
  now = 5_000_000;
  uuid = λ n. 100 + n;
  text_of = λ id. "id";
  payload_hash = λ p. "digest";
  lower = λ s. s;
  redis = λ k. counted 1;
  trace_context = [];
  encrypt = λ v ws n. v;
}

abbrev pub olga : Caller
olga = record { subject = "olga" }

abbrev pub dan : Caller
dan = record { subject = "dan" }

abbrev pub eve : Caller
eve = record { subject = "eve" }

abbrev pub membership_of : Uuid → String → WorkspaceRole → WorkspaceMembership
membership_of id subject role = record {
  id = id;
  workspace_id = 1;
  user_subject = subject;
  role = role;
  created_at = 1;
}

abbrev pub done_job : Job
done_job = record {
  id = 20;
  workspace_id = 1;
  name = "train";
  image_digest = "sha256:aa";
  command_args = [];
  env_vars = [];
  timeout_seconds = 60;
  max_retries = 2;
  current_attempt_number = 1;
  state = succeeded;
  created_at = 2;
}

abbrev pub shop : Application
shop = record {
  id = 30;
  workspace_id = 1;
  name = "shop";
  slug = "shop";
  workload_type = http_service;
  desired_generation = 3;
  current_release_id = none;
  repository_id = none;
  dockerfile_path = "Dockerfile";
  context_dir = ".";
  git_branch = none;
  created_at = 2;
}

abbrev pub shop_release : Release
shop_release = record {
  id = 31;
  application_id = 30;
  workspace_id = 1;
  release_number = 4;
  commit_sha = none;
  image_digest = "sha256:bb";
  config_json = record {
    port = some 80;
    health_path = none;
    env_vars = none;
    cpu_limit = none;
    memory_limit = none;
  };
  status = healthy;
  repository_id = none;
  git_ref = none;
  commit_message = none;
  created_at = 3;
}

abbrev pub test_db : Db
test_db = record {
  workspaces = [];
  memberships = membership_of 10 "olga" owner ∷ membership_of 11 "dan" developer ∷ [];
  secrets = [];
  applications = shop ∷ [];
  releases = shop_release ∷ [];
  repositories = [];
  jobs = done_job ∷ [];
  attempts = [];
  dead_letters = [];
  reservations = [];
  outbox = [];
  idempotency = [];
  audits = [];
  deliveries = [];
  intents = [];
}

abbrev pub job_request : SubmitJobRequest
job_request = record {
  name = "train";
  image_digest = "sha256:aa";
  command_args = [];
  env_vars = [];
  timeout_seconds = 60;
  max_retries = 2;
}

abbrev pub deploy_of : String → DeployReleaseRequest
deploy_of image = record {
  image_digest = image;
  port = 80;
  health_path = "/";
  env_vars = [];
  cpu_limit = "1";
  memory_limit = "1Gi";
}

abbrev pub waiting : OutboxEvent
waiting = record {
  id = 40;
  event_id = 41;
  workspace_id = 1;
  schema_version = 1;
  topic = job_submitted;
  payload_json = cancellation 20;
  headers_json = [];
  status = pending;
  retry_count = 0;
  next_attempt_at = none;
  published_at = none;
  created_at = 2;
}
