-- ===== src/Core/Idempotency.antt =====
-- apps/api/app/core/idempotency.py: replay of a request under its Idempotency-Key.
pub mod Replay
use hamicloud.Models.Tenancy.{seconds, Uuid}
use hamicloud.Models.Records.{AcceptedOperationResponse, IdempotencyRecord}
use hamicloud.Prelude.{
  none, leb, is_blank, some, ◌*◌, ◌*◌, false, ◌=s=◌, ◌=s=◌, String, first, ◌+◌, ◌+◌, ◌+s◌,
  if◌then◌else◌, ◌+s◌, true, Bool, strip, Option, ℕ,
}
use hamicloud.Models.Db.{Db, same_key, delete_idempotency, uq_idempotency_workspace_key, Constraint}
use hamicloud.Session.{
  M, ◌>>=◌, ◌>>◌, pure, query, raise, stage, rollback, idempotency_conflict, text,
}
use hamicloud.Env.{Env}

-- What a request is known by: its workspace, endpoint and key, and the digest of its payload.
pub record Request : Type 0 where
  pub workspace_id : Uuid
  pub endpoint : String
  pub idempotency_key : String
  pub payload_hash : String

abbrev pub stored : Request → Db → Option IdempotencyRecord
stored r d = first (same_key r.workspace_id r.endpoint r.idempotency_key) d.idempotency

abbrev pub replay_or_conflict : Request → IdempotencyRecord → M (Option AcceptedOperationResponse)
replay_or_conflict r existing =
    if existing.request_hash =s= r.payload_hash
    then pure (some existing.response_body)
    else raise 409 idempotency_conflict

abbrev pub check_existing :
    Env → Request → Option IdempotencyRecord → M (Option AcceptedOperationResponse)
check_existing env r none = pure none
check_existing env r (some existing) =
    if leb existing.expires_at env.now
    then (do stage (delete_idempotency existing.id); pure none)
    else replay_or_conflict r existing

-- The stored response, or none where there is no record, or an expired one, which is deleted.
unfoldable pub check_idempotency : Env → Request → M (Option AcceptedOperationResponse)
check_idempotency env r = do existing ← query (stored r); check_existing env r existing

-- The answer for an operation: its record's body, and the response itself.
abbrev pub accepted_response : Env → Uuid → AcceptedOperationResponse
accepted_response env op = record {
  operation_id = op;
  status = "ACCEPTED";
  status_url = "/v1/operations/" +s env.text_of op;
}

-- The record lives for 24 hours. Its row's identifier is the nth UUID.
unfoldable pub create_idempotency_record : Env → ℕ → Request → ℕ → Uuid → IdempotencyRecord
create_idempotency_record env n r code op = record {
  id = env.uuid n;
  workspace_id = r.workspace_id;
  endpoint = r.endpoint;
  idempotency_key = r.idempotency_key;
  request_hash = r.payload_hash;
  response_code = code;
  response_body = accepted_response env op;
  expires_at = env.now + seconds (24 * 3600);
}

unfoldable pub is_idempotency_violation : Constraint → Bool
is_idempotency_violation uq_idempotency_workspace_key = true
is_idempotency_violation _ = false

abbrev pub race_replay : Request → Option IdempotencyRecord → M AcceptedOperationResponse
race_replay r none = raise 409 idempotency_conflict
race_replay r (some existing) =
    if existing.request_hash =s= r.payload_hash
    then pure existing.response_body
    else raise 409 idempotency_conflict

-- `unexpected_integrity_error` of apps/api/app/core/db_errors.py
abbrev pub unexpected_integrity_error : {A : Type 0} → M A
unexpected_integrity_error = raise 500 (text "Database integrity constraint violation")

-- After a commit that broke a constraint.
unfoldable pub handle_idempotency_race : Constraint → Request → M AcceptedOperationResponse
unfolding is_idempotency_violation
handle_idempotency_race exc r = do
  rollback
  concurrent ← query (stored r)
  if is_idempotency_violation exc then race_replay r concurrent else unexpected_integrity_error

-- `get_idempotency_key`: the stripped header, or none where it is blank (a validation error).
unfoldable pub get_idempotency_key : String → Option String
unfolding strip
get_idempotency_key header = let key = strip header in if is_blank key then none else some key
