-- ===== src/Core/Telemetry/Trace.antt =====
-- The W3C trace context of apps/api/app/core/telemetry.py.
use hamicloud.Core.Auth.Tokens.{non_blank}
use hamicloud.Prelude.{
  ◌&&◌, ◌||◌, leb, ◌=s=◌, none, starts_with, ◌==◌, not, Bool, drop_text, text_length, some, strip,
  any_char, take_text, if◌then◌else◌, ℕ, ◌+s◌, Option, String,
}
use Prim.Native.Char.{code}

-- `[0-9a-f]`
abbrev pub is_hex_digit : ℕ → Bool
is_hex_digit c = (leb 48 c && leb c 57) || (leb 97 c && leb c 102)

unfoldable pub all_hex : String → Bool
unfolding any_char
all_hex s = not (any_char (λ c. not (is_hex_digit c)) s)

-- `re.sub(r"[^0-9a-f]", "", text)`
unfoldable pub keep_hex : String → String
keep_hex String.[] = String.[]
keep_hex (String.◌∷◌ c s) =
    let rest = keep_hex s in if is_hex_digit (code c) then String.◌∷◌ c rest else rest

abbrev pub zeros_32 : String
zeros_32 = "00000000000000000000000000000000"

abbrev pub zeros_16 : String
zeros_16 = "0000000000000000"

-- The groups of _TRACEPARENT_RE.
pub record TraceParts : Type 0 where
  pub trace_id : String
  pub span_id : String
  pub flags : String

abbrev pub is_group : ℕ → String → Bool
is_group n s = text_length s == n && all_hex s

-- _TRACEPARENT_RE: `00-`, 32, 16 and 2 hexadecimal digits between dashes, and the text's end.
unfoldable pub match_traceparent : String → Option TraceParts
unfolding take_text drop_text starts_with text_length all_hex
match_traceparent s =
    let body = drop_text 3 s in
    let trace = take_text 32 body in
    let after_trace = drop_text 32 body in
    let span = take_text 16 (drop_text 1 after_trace) in
    let after_span = drop_text 16 (drop_text 1 after_trace) in
    let flags = drop_text 1 after_span in
    if starts_with s "00-"
      && (is_group 32 trace
          && (starts_with after_trace "-"
              && (is_group 16 span && (starts_with after_span "-" && is_group 2 flags))))
    then some (record { trace_id = trace; span_id = span; flags = flags })
    else none

abbrev pub unless_zero : Option TraceParts → Option TraceParts
unless_zero none = none
unless_zero (some p) = if p.trace_id =s= zeros_32 || p.span_id =s= zeros_16 then none else some p

-- An incoming traceparent that is taken over.
unfoldable pub accepted_traceparent : (String → String) → Option String → Option TraceParts
unfolding match_traceparent strip
accepted_traceparent lower none = none
accepted_traceparent lower (some raw) = unless_zero (match_traceparent (lower (strip raw)))

-- An incoming X-Trace-ID that is taken over.
unfoldable pub accepted_trace_id : (String → String) → Option String → Option String
unfolding keep_hex strip text_length
accepted_trace_id lower none = none
accepted_trace_id lower (some raw) =
    let cleaned = keep_hex (lower (strip raw)) in
    if text_length cleaned == 32 && not (cleaned =s= zeros_32) then some cleaned else none

abbrev pub traceparent_of : String → String → String → String
traceparent_of trace span flags = "00-" +s (trace +s ("-" +s (span +s ("-" +s flags))))

-- `hex n` is the `hex` of the nth UUID that the call draws; the result is the trace's identifier and
-- the traceparent.
unfoldable pub from_trace_id : (ℕ → String) → Option String → String × String
unfolding take_text
from_trace_id hex (some trace) = (trace, traceparent_of trace (take_text 16 (hex 0)) "01")
from_trace_id hex none = (hex 0, traceparent_of (hex 0) (take_text 16 (hex 1)) "01")

unfoldable pub from_header :
    (String → String) → (ℕ → String) → Option TraceParts → Option String → String × String
unfolding accepted_trace_id from_trace_id
from_header lower hex (some p) raw_trace_id =
    (p.trace_id, traceparent_of p.trace_id (take_text 16 (hex 0)) p.flags)
from_header lower hex none raw_trace_id = from_trace_id hex (accepted_trace_id lower raw_trace_id)

unfoldable pub parse_or_create_traceparent :
    (String → String) → (ℕ → String) → Option String → Option String → String × String
unfolding accepted_traceparent from_header
parse_or_create_traceparent lower hex raw_traceparent raw_trace_id =
    from_header lower hex (accepted_traceparent lower (non_blank raw_traceparent))
      (non_blank raw_trace_id)
