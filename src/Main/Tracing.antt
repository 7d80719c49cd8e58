-- ===== src/Main/Tracing.antt =====
-- `correlation_id_middleware` of apps/api/app/main.py, and the trace context that it sets.
use hamicloud.Core.Auth.Tokens.{non_blank}
use hamicloud.Core.Telemetry.Trace.{parse_or_create_traceparent}
use hamicloud.Main.Errors.{RequestState, put_if_given}
use hamicloud.Core.Telemetry.{TelemetryCollector, record_request}
use hamicloud.Prelude.{◌+s◌, ◌=s=◌, if◌then◌else◌, or_default, [], ◌+◌, String, ℕ, Option}
use hamicloud.Core.Events.{put_header, Headers}

-- The request, as far as the middleware reads it.
pub record Incoming : Type 0 where
  pub x_correlation_id : Option String
  pub traceparent : Option String
  pub x_trace_id : Option String
  pub path : String

pub record Outgoing : Type 0 where
  pub status_code : ℕ
  pub headers : Headers

-- The state of a request; `hex n` is the hex of its nth UUID.
unfoldable pub state_of : (String → String) → (ℕ → String) → Incoming → RequestState
unfolding parse_or_create_traceparent
state_of lower hex request =
    let (trace_id, traceparent) =
      parse_or_create_traceparent lower (λ n. hex (n + 1)) request.traceparent request.x_trace_id in
    record {
      correlation_id = or_default (non_blank request.x_correlation_id) ("req_" +s hex 0);
      trace_id = trace_id;
      traceparent = traceparent;
    }

-- `set_trace_context`, then `get_trace_context`: the headers that the request's events carry.
unfoldable pub trace_context_of : RequestState → Headers
unfolding put_if_given
trace_context_of r =
    put_if_given "traceparent" r.traceparent
      (put_if_given "trace_id" r.trace_id (put_if_given "correlation_id" r.correlation_id []))

-- `call_next` is the rest of the service; the duration is the clock's.
unfoldable pub correlation_id_middleware :
    (String → String)
    → (ℕ → String)
    → (RequestState → Outgoing)
    → ℕ
    → Incoming
    → TelemetryCollector
    → Outgoing × TelemetryCollector
unfolding state_of record_request put_header
correlation_id_middleware lower hex call_next duration request collector =
    let r = state_of lower hex request in
    let response = call_next r in
    let recorded = record_request response.status_code duration collector in
    (
      record response {
        headers = put_header "traceparent" r.traceparent (
            put_header "X-Trace-ID" r.trace_id
              (put_header "X-Correlation-ID" r.correlation_id response.headers));
      },
      if request.path =s= "/metrics" then collector else recorded,
    )
