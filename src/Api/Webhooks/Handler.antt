-- ===== src/Api/Webhooks/Handler.antt =====
-- `handle_github_webhook` of apps/api/app/api/v1/webhooks.py.
use hamicloud.Api.Webhooks.Pushes.{process_push, matched_apps, branch_of}
use hamicloud.Api.Webhooks.Rows.{
  event_name, stored_delivery, is_blank_option, PushPayload, Delivery, GitHub, duplicate_of,
  verify_github_signature, WebhookDeliveryResponse, acknowledge,
}
use hamicloud.Session.{raise_if, ◌>>◌, found, query, ◌>>=◌, text, pure, M}
use hamicloud.Env.{Env}
use hamicloud.Models.Apps.{WebhookDelivery, Repository}
use hamicloud.Prelude.{
  is_empty, ◌||◌, ◌==◌, not, is_blank, ◌=s=◌, first, none, if◌then◌else◌, some, or_default, String,
  Option,
}
use hamicloud.Models.Tenancy.{Uuid}

abbrev pub no_commit : String
no_commit = "0000000000000000000000000000000000000000"

-- A push of a commit: to the applications of its branch, if there are any.
unfoldable pub handle_commit :
    Env
    → GitHub
    → Repository
    → String
    → String
    → String
    → PushPayload
    → String
    → M WebhookDeliveryResponse
unfolding acknowledge branch_of matched_apps process_push
handle_commit env lib repo id event body push sha = do
  let branch = branch_of push.ref
  apps ← query (matched_apps repo branch)
  if is_empty apps
      then acknowledge env lib repo id event body "IGNORED_NO_MATCHING_APP" (some sha)
      else process_push env lib repo id event body branch sha push.message apps

-- A push whose `after` is missing or all zeros deleted its branch.
unfoldable pub handle_push :
    Env → GitHub → Repository → String → String → String → PushPayload → M WebhookDeliveryResponse
unfolding acknowledge handle_commit
handle_push env lib repo id event body push =
    let sha = or_default push.after "" in
    if is_blank sha || sha =s= no_commit
    then acknowledge env lib repo id event body "IGNORED_BRANCH_DELETED" none
    else handle_commit env lib repo id event body push sha

-- `x_github_event or "unknown"`
abbrev pub or_unknown : String → String
or_unknown event = if is_blank event then "unknown" else event

-- A new delivery, by its event. The error of a body that does not parse goes on with the parser's
-- own text, which is left out.
unfoldable pub handle_event :
    Env → GitHub → Repository → String → String → String → M WebhookDeliveryResponse
unfolding acknowledge handle_push
handle_event env lib repo id event body =
    if event =s= "ping"
    then acknowledge env lib repo id "ping" body "PING_ACKNOWLEDGED" none
    else if not (event =s= "push")
    then acknowledge env lib repo id (or_unknown event) body "IGNORED_NON_PUSH_EVENT" none
    else (do
      push ← found (lib.parse_push body) 400 (text "Invalid JSON payload")
      handle_push env lib repo id event body push)

-- A delivery that is stored already is answered with its row.
abbrev pub unless_stored :
    String → Option WebhookDelivery → M WebhookDeliveryResponse → M WebhookDeliveryResponse
unless_stored id (some existing) rest = pure (duplicate_of id existing)
unless_stored id none rest = rest

unfoldable pub handle_github_webhook : Env → GitHub → Uuid → Delivery → M WebhookDeliveryResponse
unfolding verify_github_signature handle_event
handle_github_webhook env lib repository_id v = do
  row ← query (λ d. first (λ (r : Repository). r.id == repository_id) d.repositories)
  repo ← found row 404 (text "Repository not found")
  signed ←
      found (verify_github_signature lib v.body repo.webhook_secret v.x_hub_signature_256) 500
        (text "An unexpected internal platform error occurred.")
  raise_if (not signed) 401 (text "Invalid or missing X-Hub-Signature-256 header")
  raise_if (is_blank_option v.x_github_delivery) 400 (text "Missing X-GitHub-Delivery header")
  let id = or_default v.x_github_delivery ""
  existing ← query (stored_delivery repository_id id)
  unless_stored id existing (handle_event env lib repo id (event_name v) v.body)
