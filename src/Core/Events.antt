-- ===== src/Core/Events.antt =====
-- `create_outbox_event` of apps/api/app/core/events.py.
use hamicloud.Prelude.{ℕ, String, none, List, [], ◌∷◌, ◌=s=◌, if◌then◌else◌}
use hamicloud.Models.Tenancy.{Uuid}
use hamicloud.Models.Records.{OutboxTopic, OutboxEvent, EventPayload, pending}
use hamicloud.Env.{Env}

abbrev pub Headers : Type 0
Headers = List (String × String)

-- `headers[k] = v`
unfoldable pub put_header : String → String → Headers → Headers
put_header k v [] = (k, v) ∷ []
put_header k v ((j, w) ∷ h) = if j =s= k then (k, v) ∷ h else (j, w) ∷ put_header k v h

-- `merged.update(headers)`
unfoldable pub update_headers : Headers → Headers → Headers
unfolding put_header
update_headers merged [] = merged
update_headers merged ((k, v) ∷ h) = update_headers (put_header k v merged) h

-- The row's own identifier is the nth UUID of the request.
unfoldable pub create_outbox_event :
    Env → ℕ → Uuid → OutboxTopic → EventPayload → Headers → Uuid → OutboxEvent
unfolding update_headers
create_outbox_event env n ws topic payload headers event_id = record {
  id = env.uuid n;
  event_id = event_id;
  workspace_id = ws;
  schema_version = 1;
  topic = topic;
  payload_json = payload;
  headers_json = update_headers (update_headers [] env.trace_context) headers;
  status = pending;
  retry_count = 0;
  next_attempt_at = none;
  published_at = none;
  created_at = env.now;
}
