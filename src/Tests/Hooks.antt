-- ===== src/Tests/Hooks.antt =====
-- The theorems on webhooks and repositories, at small concrete data.
use hamicloud.Api.Webhooks.Answered.{push_processed}
use hamicloud.Api.Webhooks.Staged.{last_release}
use hamicloud.Models.Records.{OutboxEvent}
use hamicloud.Api.Webhooks.Handler.{handle_commit, handle_github_webhook}
use hamicloud.Api.Repositories.Urls.{SplitResult}
use hamicloud.Api.Webhooks.Built.{Builds, inserted, push-Built, Built}
use hamicloud.Session.{ok, alone, serve}
use hamicloud.Models.Apps.{Release, Repository}
use hamicloud.Tests.Data.{dan, shop, test_db, test_env}
use hamicloud.Api.Repositories.{create_repository, CreateRepositoryRequest}
use hamicloud.Models.Db.{Db}
use hamicloud.Api.Repositories.Approved.{repository_approved, OneApproved}
use hamicloud.Api.Webhooks.Pushes.{matched_apps, branch_of}
use hamicloud.Api.Webhooks.Once.{webhook-Once, Once}
use hamicloud.Prelude.{
  arith, ◌≤◌, text_length, ◌≡◌, refl, List, map, none, [], ◌∷◌, some, Option, ◌+◌, String,
}
use hamicloud.Api.Webhooks.Rows.{answer, GitHub, Delivery, PushPayload}
use hamicloud.Env.{Env}

abbrev site : Repository
site = record {
  id = 70;
  workspace_id = 1;
  name = "site";
  repo_url = "https://github.com/hami9/site";
  webhook_secret = "longsecret";
  default_branch = "main";
  created_at = 4;
}

abbrev hooked_db : Db
hooked_db = record test_db {
  repositories = site ∷ [];
  applications = record shop { repository_id = some 70 } ∷ [];
}

abbrev main_push : PushPayload
main_push = record { after = some "abc"; ref = "refs/heads/main"; message = some "fix" }

abbrev hub : GitHub
hub = record {
  hmac_sha256 = λ secret body. "sig";
  sha256 = λ body. "hash";
  parse_push = λ body. some main_push;
}

abbrev push_delivery : Delivery
push_delivery = record {
  body = "{}";
  x_hub_signature_256 = some "sha256=sig";
  x_github_delivery = some "d1";
  x_github_event = some "push";
}

abbrev next_env : Env
next_env = record test_env { now = 6_000_000; uuid = λ n. 200 + n }

webhook-Once_example :
    Once test_env next_env hub 70 push_delivery hooked_db
      (serve alone (handle_github_webhook test_env hub 70 push_delivery) hooked_db).1
webhook-Once_example = webhook-Once test_env next_env hub 70 push_delivery hooked_db

push-Built_example :
    Built hooked_db site "main" "abc"
      (matched_apps site "main" hooked_db)
      (serve alone (handle_commit test_env hub site "d1" "push" "{}" main_push "abc") hooked_db).1
unfolding branch_of
push-Built_example = push-Built test_env hub site "d1" "push" "{}" main_push "abc" hooked_db

abbrev split : String → Option SplitResult
split url = some (record {
  hostname = some "github.com";
  username = none;
  password = none;
  netloc = "github.com";
})

abbrev site_request : CreateRepositoryRequest
site_request = record {
  name = "docs";
  repo_url = "https://github.com/hami9/docs";
  webhook_secret = "longsecret";
  default_branch = "main";
}

repository_approved_example :
    OneApproved test_env split 1 site_request hooked_db
      (serve alone (create_repository test_env split dan 1 site_request) hooked_db).1
repository_approved_example = repository_approved test_env split dan 1 site_request hooked_db

short_sha : text_length "abc" ≤ 40
unfolding text_length
short_sha = omega arith

short_branch : text_length (branch_of main_push.ref) ≤ 100
unfolding text_length branch_of
short_branch = omega arith

short_id : text_length "d1" ≤ 100
unfolding text_length
short_id = omega arith

short_event : text_length "push" ≤ 50
unfolding text_length
short_event = omega arith

push_processed_example :
    (x : Db) × (news : List (Release × OutboxEvent)) × (serve alone
        (handle_commit test_env hub site "d1" "push" "{}" main_push "abc")
        hooked_db
      ≡ (
        ok (
            answer test_env 202 "d1" "PROCESSED" "push"
              (last_release test_env site "main" "abc"
                (some "fix")
                hooked_db
                1
                (matched_apps site "main" hooked_db)
                none)
              (some "abc")),
        x,
      ))
    × (Builds hooked_db site "main" "abc" (matched_apps site "main" hooked_db) news)
    × (x.releases ≡ inserted (map (λ n. n.0) news) hooked_db.releases)
    × (x.outbox ≡ inserted (map (λ n. n.1) news) hooked_db.outbox)
unfolding branch_of matched_apps
push_processed_example =
    push_processed test_env hub site "d1" "push" "{}" main_push "abc" hooked_db (refl, tt) refl refl
      short_sha short_branch short_id short_event
