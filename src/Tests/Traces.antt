-- ===== src/Tests/Traces.antt =====
-- The theorem on traces, at small concrete data.
use hamicloud.Core.Telemetry.Traced.{HexUuids}
use hamicloud.Core.Telemetry.Hops.{trace_kept}
use hamicloud.Core.Telemetry.Trace.{parse_or_create_traceparent, all_hex}
use hamicloud.Prelude.{refl, take_text, ◌≡◌, text_length, none, some, any_char, Option, ℕ, String}

abbrev hex : ℕ → String
hex n = "0123456789ab4def0123456789abcdef"

hex-HexUuids : HexUuids hex
unfolding all_hex any_char text_length take_text
hex-HexUuids = record {
  whole = λ n. refl;
  half = λ n. refl;
  whole_given = λ n. refl;
  half_given = λ n. refl;
}

abbrev incoming : Option String
incoming = some "00-aaaaaaaaaaaaaaaaaaaaaaaaaaaaaaaa-bbbbbbbbbbbbbbbb-01"

trace_kept_example :
    (parse_or_create_traceparent
      (λ s. s)
      (λ n. "f")
      (some (parse_or_create_traceparent (λ s. s) hex incoming none).1)
      none).0
    ≡ (parse_or_create_traceparent (λ s. s) hex incoming none).0
trace_kept_example =
    trace_kept (λ s. s) hex hex-HexUuids (λ n. "f") incoming none none (λ s h. refl)

-- The incoming trace is taken over.
incoming_taken :
    (parse_or_create_traceparent (λ s. s) hex incoming none).0 ≡ "aaaaaaaaaaaaaaaaaaaaaaaaaaaaaaaa"
unfolding parse_or_create_traceparent
incoming_taken = refl
