-- ===== src/Tests/Views.antt =====
-- The theorems on what is shown, at small concrete data.
use hamicloud.Api.Operations.Visible.{operations_visible, stream_answer, seen, status_answer}
use hamicloud.Main.Reported.{errors_reported, body_field, unless_reserved, detail_field, is_member}
use hamicloud.Api.Operations.{stream_operation_events, get_operation_status}
use hamicloud.Tests.Data.{dan, test_db}
use hamicloud.Models.Db.{Db}
use hamicloud.Core.Pagination.{Cursor}
use hamicloud.Prelude.{some, refl, arith, true, order_by, ◌≡◌, none, [], ◌∷◌, List, ℕ}
use hamicloud.Session.{quota_exceeded, alone, serve}
use hamicloud.Main.Errors.{Body, RequestState, body_of, http_exception_handler}
use hamicloud.Core.Telemetry.{TelemetryCollector}
use hamicloud.Core.Pagination.Walk.{earlier, walk, pages_walk}

abbrev at_time : ℕ → ℕ → Cursor
at_time t id = record { created_at = t; id = id }

abbrev three_rows : List Cursor
three_rows = at_time 5 1 ∷ at_time 7 2 ∷ at_time 5 3 ∷ []

pages_walk_example :
    walk (λ c. c) 2 4 none three_rows ≡ some (order_by (earlier (λ c. c)) three_rows)
pages_walk_example =
    pages_walk (λ c. c) 2 4 three_rows ((refl, (refl, tt)), ((refl, tt), (tt, tt))) (omega arith)
      (omega arith)

operations_visible_example :
    (serve alone (get_operation_status (λ id. "id") dan 31) test_db
      ≡ (status_answer (seen (λ id. "id") dan 31 test_db), test_db))
    × (serve alone (stream_operation_events dan 31) test_db
        ≡ (stream_answer (seen (λ id. "id") dan 31 test_db), test_db))
operations_visible_example = operations_visible (λ id. "id") dan 31 alone test_db

abbrev idle_collector : TelemetryCollector
idle_collector = record {
  max_samples = 2;
  durations = 8 ∷ 9 ∷ [];
  status_2xx = 1;
  status_3xx = 0;
  status_4xx = 1;
  status_5xx = 0;
}

abbrev traced : RequestState
traced = record { correlation_id = "req_1"; trace_id = "t"; traceparent = "" }

abbrev over_quota : Body
unfolding body_of
over_quota = body_of (λ n. "2") (quota_exceeded "CONCURRENT_JOB" 2 15)

errors_reported_example :
    ((http_exception_handler (λ j. "") traced 429 over_quota []).status_code ≡ 429)
    × (is_member (http_exception_handler (λ j. "") traced 429 over_quota []).error_code ≡ true)
    × (detail_field "limit" (http_exception_handler (λ j. "") traced 429 over_quota []).details
        ≡ unless_reserved "limit" (body_field "limit" over_quota))
errors_reported_example = errors_reported (λ j. "") traced 429 over_quota [] "limit"
