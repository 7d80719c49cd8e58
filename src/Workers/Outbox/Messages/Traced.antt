-- ===== src/Workers/Outbox/Messages/Traced.antt =====
-- What a message tells of its event and of the request that wrote it.
use hamicloud.Models.Records.{OutboxEvent, EventPayload, OutboxTopic}
use hamicloud.Models.Tenancy.{Uuid}
use hamicloud.Prelude.{
  false, arith, subst, eq_iff, inr, inl, ◌=s=◌, Bool-cases, [], ◌∷◌, ap, [], ◌∙◌, some, ℕ, none,
  ◌≡◌, String, Option, refl,
}
use hamicloud.Core.Events.{Headers, put_header, update_headers, create_outbox_event}
use hamicloud.Workers.Outbox.Messages.{
  nats_message, base_headers, header_of, last_of, or_else, put_lem, update_lem,
}
use hamicloud.Main.Errors.{RequestState, put_if_given}
use hamicloud.Main.Tracing.{trace_context_of}
use hamicloud.Core.Auth.Tokens.{non_blank}
use hamicloud.Env.{Env}

-- Each key stands once, as in a dictionary.
abbrev Keyed : Headers → Type 0
Keyed [] = Unit {0}
Keyed ((j, v) ∷ h) = (header_of j h ≡ none) × Keyed h

put-Keyed : (j v : String) (h : Headers) → Keyed h → Keyed (put_header j v h)
unfolding put_header
put-Keyed j v [] d = (refl, tt)
put-Keyed j v ((i, w) ∷ h) (d, ds) = elim (Bool-cases (i =s= j)) [
  | inl same ↦
      let e : i ≡ j = (eq_iff i j).0 same in rw same (subst (λ l. header_of l h ≡ none) e d, ds)
  | inr other ↦
      let e : (j =s= i) ≡ false = elim (Bool-cases (j =s= i)) [
        | inl same ↦ absurd (ground (arith, eq_iff j i, eq_iff i j))
        | inr differs ↦ differs
      ] in
      rw other (put_lem i j v h ∙ rw e d, put-Keyed j v h ds)
]

update-Keyed : (m h : Headers) → Keyed m → Keyed (update_headers m h)
unfolding update_headers
update-Keyed m [] d = d
update-Keyed m ((j, v) ∷ h) d = update-Keyed (put_header j v m) h (put-Keyed j v m d)

last_lem : (k : String) (h : Headers) → Keyed h → last_of k h ≡ header_of k h
last_lem k [] d = refl
last_lem k ((j, v) ∷ h) (d, ds) = elim (Bool-cases (j =s= k)) [
  | inl same ↦
      let e : j ≡ k = (eq_iff j k).0 same in
      let nothing : last_of k h ≡ none = last_lem k h ds ∙ subst (λ l. header_of l h ≡ none) e d in
      rw (nothing, same) refl
  | inr other ↦ ground (arith, last_lem k h ds)
]

or_else-none : (o : Option String) → or_else o none ≡ o
or_else-none none = refl
or_else-none (some v) = refl

module _ (text_of : Uuid → String) (str : ℕ → String) (env : Env) (n : ℕ) (ws : Uuid)
    (topic : OutboxTopic) (payload : EventPayload) (explicit : Headers) (event_id : Uuid) where
  abbrev event : OutboxEvent
  event = create_outbox_event env n ws topic payload explicit event_id

  event_headers :
      (k : String)
      → last_of k event.headers_json ≡ or_else (last_of k explicit) (last_of k env.trace_context)
  unfolding create_outbox_event
  event_headers k =
      let ctx = update_headers [] env.trace_context in
      let of_ctx : header_of k ctx ≡ last_of k env.trace_context =
        update_lem k [] env.trace_context ∙ or_else-none (last_of k env.trace_context) in
      last_lem k (update_headers ctx explicit)
        (update-Keyed ctx explicit (update-Keyed [] env.trace_context tt))
      ∙ update_lem k ctx explicit
      ∙ ap (or_else (last_of k explicit)) of_ctx

  message_headers :
      (k : String)
      → header_of k (nats_message text_of str event).headers
        ≡ or_else
            (or_else (last_of k explicit) (last_of k env.trace_context))
            (header_of k (base_headers text_of str event))
  unfolding nats_message
  message_headers k =
      update_lem k (base_headers text_of str event) event.headers_json
      ∙ ap (λ o. or_else o (header_of k (base_headers text_of str event))) (event_headers k)

-- The request's trace context, read back.
context_lem :
    (r : RequestState)
    → (last_of "correlation_id" (trace_context_of r) ≡ non_blank (some r.correlation_id))
      × (last_of "trace_id" (trace_context_of r) ≡ non_blank (some r.trace_id))
      × (last_of "traceparent" (trace_context_of r) ≡ non_blank (some r.traceparent))
      × (last_of "Nats-Msg-Id" (trace_context_of r) ≡ none)
unfolding trace_context_of put_if_given put_header
context_lem r = ground arith

-- The four keys that tell the event and the request are not among the headers that a handler adds.
abbrev pub LeavesKeys : Headers → Type 0
LeavesKeys explicit =
    (last_of "correlation_id" explicit ≡ none)
    × (last_of "trace_id" explicit ≡ none)
    × (last_of "traceparent" explicit ≡ none)
    × (last_of "Nats-Msg-Id" explicit ≡ none)

-- The message of an event that a request with the context `r` creates has the event's identifier,
-- for the broker's deduplication, and the request's correlation, trace and traceparent, as far as
-- they are not empty, where the headers that the handler adds leave these keys.
pub event-Traced :
    (text_of : Uuid → String) (str : ℕ → String) (env : Env) (n : ℕ) (ws : Uuid)
    (topic : OutboxTopic) (payload : EventPayload) (explicit : Headers) (event_id : Uuid)
    (r : RequestState)
    → env.trace_context ≡ trace_context_of r
    → LeavesKeys explicit
    → let m =
        nats_message text_of str (create_outbox_event env n ws topic payload explicit event_id) in
      (header_of "Nats-Msg-Id" m.headers ≡ some (text_of event_id))
      × (header_of "correlation_id" m.headers ≡ non_blank (some r.correlation_id))
      × (header_of "trace_id" m.headers ≡ non_blank (some r.trace_id))
      × (header_of "traceparent" m.headers ≡ non_blank (some r.traceparent))
unfolding base_headers create_outbox_event
event-Traced text_of str env n ws topic payload explicit event_id r ctx (c, t, p, m) =
    let lem = message_headers text_of str env n ws topic payload explicit event_id in
    let (rc, rt, rp, rm) = context_lem r in
    (
      lem "Nats-Msg-Id" ∙ rw (m, ctx) (ap (λ o. or_else o (some (text_of event_id))) rm),
      lem "correlation_id" ∙ rw (c, ctx) (or_else-none _ ∙ rc),
      lem "trace_id" ∙ rw (t, ctx) (or_else-none _ ∙ rt),
      lem "traceparent" ∙ rw (p, ctx) (or_else-none _ ∙ rp),
    )
