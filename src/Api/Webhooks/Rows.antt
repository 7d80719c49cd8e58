-- ===== src/Api/Webhooks/Rows.antt =====
-- Deliveries of GitHub's webhooks (apps/api/app/api/v1/webhooks.py): their signature, their rows and
-- their answers.
use hamicloud.Models.Db.{insert_delivery, same_delivery, Constraint, Db}
use hamicloud.Session.{commit, ◌>>=◌, stage, ◌>>◌, text, raise, pure, M}
use hamicloud.Env.{Env}
use hamicloud.Models.Apps.{WebhookDelivery, Repository}
use hamicloud.Prelude.{
  ltb, any_char, ◌+s◌, is_blank, ◌=s=◌, true, first, none, false, if◌then◌else◌, some, Bool,
  or_default, starts_with, ℕ, String, Option,
}
use hamicloud.Models.Tenancy.{Time, Uuid}

-- A push event's body, as far as it is read: `after`, `ref` and `head_commit.message`.
pub record PushPayload : Type 0 where
  pub after : Option String
  pub ref : String
  pub message : Option String

-- The digests and the parser that the handler calls: HMAC-SHA256 of a body under a secret and
-- SHA-256 of a body, in hexadecimal, and `json.loads`, which gives none where it raises.
pub record GitHub : Type 0 where
  pub hmac_sha256 : String → String → String
  pub sha256 : String → String
  pub parse_push : String → Option PushPayload

-- A delivery: the raw body and the three headers.
pub record Delivery : Type 0 where
  pub body : String
  pub x_hub_signature_256 : Option String
  pub x_github_delivery : Option String
  pub x_github_event : Option String

-- The response's status code, and `WebhookDeliveryResponse`.
pub record WebhookDeliveryResponse : Type 0 where
  pub code : ℕ
  pub delivery_id : String
  pub status : String
  pub event_type : String
  pub processed_at : Time
  pub release_id : Option Uuid
  pub commit_sha : Option String

-- `hmac.compare_digest` of texts: none for the TypeError on a text that is not ASCII. The expected one
-- is.
abbrev pub compare_digest : String → String → Option Bool
compare_digest header expected =
    if any_char (λ c. ltb 127 c) header then none else some (header =s= expected)

unfoldable pub verify_github_signature : GitHub → String → String → Option String → Option Bool
unfolding starts_with
verify_github_signature lib raw_body secret none = some false
verify_github_signature lib raw_body secret (some header) =
    if starts_with header "sha256="
    then compare_digest header ("sha256=" +s lib.hmac_sha256 secret raw_body)
    else some false

abbrev pub is_blank_option : Option String → Bool
is_blank_option none = true
is_blank_option (some s) = is_blank s

-- The event's name, "push" where the header is missing, and the name that a record keeps.
abbrev pub event_name : Delivery → String
event_name v = or_default v.x_github_event "push"

abbrev pub stored_delivery : Uuid → String → Db → Option WebhookDelivery
stored_delivery repo id d = first (same_delivery repo id) d.deliveries

-- The row of a delivery; its identifier is the nth UUID of the request.
abbrev pub delivery_row :
    Env → GitHub → ℕ → Repository → String → String → String → String → WebhookDelivery
delivery_row env lib n repo id event body status = record {
  id = env.uuid n;
  workspace_id = repo.workspace_id;
  repository_id = repo.id;
  delivery_id = id;
  event_type = event;
  payload_hash = lib.sha256 body;
  status = status;
  created_at = env.now;
}

abbrev pub answer :
    Env → ℕ → String → String → String → Option Uuid → Option String → WebhookDeliveryResponse
answer env code id status event release sha = record {
  code = code;
  delivery_id = id;
  status = status;
  event_type = event;
  processed_at = env.now;
  release_id = release;
  commit_sha = sha;
}

abbrev pub duplicate_of : String → WebhookDelivery → WebhookDeliveryResponse
duplicate_of id v = record {
  code = 200;
  delivery_id = id;
  status = "DUPLICATE";
  event_type = v.event_type;
  processed_at = v.created_at;
  release_id = none;
  commit_sha = none;
}

-- A commit whose violated constraint nothing catches ends in the handler of unexpected errors.
abbrev pub uncaught : WebhookDeliveryResponse → Option Constraint → M WebhookDeliveryResponse
uncaught r none = pure r
uncaught r (some exc) = raise 500 (text "An unexpected internal platform error occurred.")

-- A delivery that starts no build: its row, and the answer.
unfoldable pub acknowledge :
    Env
    → GitHub
    → Repository
    → String
    → String
    → String
    → String
    → Option String
    → M WebhookDeliveryResponse
acknowledge env lib repo id event body status sha = do
  stage (insert_delivery (delivery_row env lib 0 repo id event body status))
  broken ← commit
  uncaught (answer env 200 id status event none sha) broken
