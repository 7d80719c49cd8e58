-- ===== src/Core/Telemetry/Hops.antt =====
-- The trace that goes from one call to the next (apps/api/app/core/telemetry.py).
use hamicloud.Core.Auth.Tokens.{non_blank}
use hamicloud.Core.Telemetry.Traced.{
  matched_groups, none_if, kept_digits, some_if, sent_accepted, Sendable, Lowers, sent, HexUuids,
}
use hamicloud.Core.Telemetry.Trace.{
  zeros_16, is_group, zeros_32, unless_zero, match_traceparent, keep_hex, all_hex, TraceParts,
  from_trace_id, accepted_trace_id, accepted_traceparent, from_header, parse_or_create_traceparent,
}
use hamicloud.Prelude.{
  ◌||◌, none, subst, true, refl, arith, false, &&_both, ◌=s=◌, not, ◌&&◌, ◌==◌, text_length, inl,
  inr, strip, sym, ◌∙◌, take_text, Option-cases, ap, some, ◌≡◌, Option, ℕ, String,
}

-- The call that receives a sent context.
second_hop :
    {lower : String → String} (later : ℕ → String) (p : TraceParts) (other : Option String)
    → Lowers lower
    → Sendable p
    → (parse_or_create_traceparent lower later (some (sent p).1) other).0 ≡ (sent p).0
unfolding parse_or_create_traceparent from_header sent
second_hop {lower} later p other law s =
    ap (λ o. (from_header lower later o (non_blank other)).0) (sent_accepted lower p law s)

-- The trace that a call keeps or begins.
module _ (lower : String → String) (hex : ℕ → String) (uuids : HexUuids hex) where
  header-Sendable :
      (o : Option String) (p : TraceParts)
      → accepted_traceparent lower o ≡ some p
      → Sendable (record p { span_id = take_text 16 (hex 0) })
  unfolding accepted_traceparent
  header-Sendable none p h = absurd (cc)
  header-Sendable (some raw) p h = from_match (match_traceparent (lower (strip raw))) refl h
    where
      from_match :
          (m : Option TraceParts)
          → match_traceparent (lower (strip raw)) ≡ m
          → unless_zero m ≡ some p
          → Sendable (record p { span_id = take_text 16 (hex 0) })
      from_match none e u = absurd (cc)
      from_match (some q) e u =
          let (zero, same) = none_if (q.trace_id =s= zeros_32 || q.span_id =s= zeros_16) q p u in
          let (trace, flags) = matched_groups (lower (strip raw)) q e in
          let given : (q.trace_id =s= zeros_32) ≡ false = ground arith in
          subst (λ (r : TraceParts). Sendable (record r { span_id = take_text 16 (hex 0) })) same
            (trace, uuids.half 0, flags, given, uuids.half_given 0)

  trace_id-Sendable :
      (o : Option String) (trace : String)
      → accepted_trace_id lower o ≡ some trace
      → Sendable (record { trace_id = trace; span_id = take_text 16 (hex 0); flags = "01" })
  unfolding accepted_trace_id all_hex
  trace_id-Sendable none trace h = absurd (cc)
  trace_id-Sendable (some raw) trace h =
      let cleaned = keep_hex (lower (strip raw)) in
      let (fits, same) =
        some_if (text_length cleaned == 32 && not (cleaned =s= zeros_32)) cleaned trace h in
      let (long, given) = &&_both (text_length cleaned == 32) (not (cleaned =s= zeros_32)) fits in
      let given_trace : (cleaned =s= zeros_32) ≡ false = ground arith in
      let group : is_group 32 cleaned ≡ true = rw (long, kept_digits (lower (strip raw))) in
      subst (λ t. Sendable (record { trace_id = t; span_id = take_text 16 (hex 0); flags = "01" }))
        same (group, uuids.half 0, refl, given_trace, uuids.half_given 0)

  -- What a call returns is a context that it can send on.
  created-Sendable :
      (raw_traceparent raw_trace_id : Option String)
      → (p : TraceParts) × Sendable p
        × (parse_or_create_traceparent lower hex raw_traceparent raw_trace_id ≡ sent p)
  unfolding parse_or_create_traceparent from_header from_trace_id sent all_hex
  created-Sendable raw_traceparent raw_trace_id =
      elim (Option-cases (accepted_traceparent lower (non_blank raw_traceparent))) [
        | inr (p, e) ↦ (
          record p { span_id = take_text 16 (hex 0) },
          header-Sendable (non_blank raw_traceparent) p e,
          ap (λ o. from_header lower hex o (non_blank raw_trace_id)) e,
        )
        | inl none_given ↦ elim (Option-cases (accepted_trace_id lower (non_blank raw_trace_id))) [
          | inr (trace, e) ↦ (
            record { trace_id = trace; span_id = take_text 16 (hex 0); flags = "01" },
            trace_id-Sendable (non_blank raw_trace_id) trace e,
            ap (λ o. from_header lower hex o (non_blank raw_trace_id)) none_given
                ∙ ap (from_trace_id hex) e,
          )
          | inl no_id ↦ (
            record { trace_id = hex 0; span_id = take_text 16 (hex 1); flags = "01" },
            (uuids.whole 0, uuids.half 1, refl, uuids.whole_given 0, uuids.half_given 1),
            ap (λ o. from_header lower hex o (non_blank raw_trace_id)) none_given
                ∙ ap (from_trace_id hex) no_id,
          )
        ]
      ]

  -- A call's traceparent, received by another call, keeps the trace: whatever came in first, and
  -- whatever UUIDs the second call draws and X-Trace-ID it gets, the second call returns the first
  -- one's trace identifier.
  pub trace_kept :
      (later : ℕ → String) (raw_traceparent raw_trace_id other : Option String)
      → Lowers lower
      → (parse_or_create_traceparent lower later
          (some (parse_or_create_traceparent lower hex raw_traceparent raw_trace_id).1)
          other).0
        ≡ (parse_or_create_traceparent lower hex raw_traceparent raw_trace_id).0
  trace_kept later raw_traceparent raw_trace_id other law =
      let (p, s, e) = created-Sendable raw_traceparent raw_trace_id in
      ap (λ r. (parse_or_create_traceparent lower later (some r.1) other).0) e
      ∙ second_hop later p other law s
      ∙ ap (λ r. r.0) (sym e)
