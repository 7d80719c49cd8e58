-- ===== src/Core/Telemetry/Traced.antt =====
-- What a trace keeps from hop to hop (apps/api/app/core/telemetry.py).
use hamicloud.Core.Auth.Tokens.{non_blank}
use hamicloud.Core.Telemetry.Trace.{
  unless_zero, keep_hex, accepted_traceparent, traceparent_of, is_hex_digit, zeros_16, zeros_32,
  is_group, TraceParts, all_hex, match_traceparent,
}
use hamicloud.Prelude.{
  none, if◌then◌else◌, ap, strip, ◌∙◌, subst, ==_iff, text_length, &&_both, starts_with, drop_text,
  some, ◌=s=◌, refl, ◌+s◌, ◌==◌, arith, take_text, ◌||◌, true, false, not, ◌≡◌, Bool, is_space,
  any_char, ℕ, String,
}
use hamicloud.Prelude.Spliced.{
  starts_with-append, drop_text-append, take_text-append, any_char-append, strip_lem,
}

-- What the module relies on: `uuid4().hex` is 32 hexadecimal digits of which one among the first 16
-- is a 4, and `str.lower` leaves digits, the letters a to f and dashes as they are.
pub record HexUuids (hex : ℕ → String) : Type 0 where
  pub whole : (n : ℕ) → is_group 32 (hex n) ≡ true
  pub half : (n : ℕ) → is_group 16 (take_text 16 (hex n)) ≡ true
  pub whole_given : (n : ℕ) → (hex n =s= zeros_32) ≡ false
  pub half_given : (n : ℕ) → (take_text 16 (hex n) =s= zeros_16) ≡ false

abbrev pub is_digit_or_dash : ℕ → Bool
is_digit_or_dash c = is_hex_digit c || c == 45

abbrev pub Lowers : (String → String) → Type 0
Lowers lower = (s : String) → any_char (λ c. not (is_digit_or_dash c)) s ≡ false → lower s ≡ s

-- A taken text in front of another is found again.
front :
    (n : ℕ) (s t : String)
    → is_group n s ≡ true
    → (take_text n (s +s t) ≡ s) × (drop_text n (s +s t) ≡ t)
front n s t h =
    let (counted, _) = &&_both (text_length s == n) (all_hex s) h in
    let same : text_length s ≡ n = (==_iff (text_length s) n).0 counted in
    (
      subst (λ k. take_text k (s +s t) ≡ s) same (take_text-append s t),
      subst (λ k. drop_text k (s +s t) ≡ t) same (drop_text-append s t),
    )

match_back :
    (p : TraceParts)
    → is_group 32 p.trace_id ≡ true
    → is_group 16 p.span_id ≡ true
    → is_group 2 p.flags ≡ true
    → match_traceparent (traceparent_of p.trace_id p.span_id p.flags) ≡ some p
unfolding match_traceparent
match_back p a b c =
    let last = "-" +s p.flags in
    let middle = "-" +s (p.span_id +s last) in
    let begins : starts_with (traceparent_of p.trace_id p.span_id p.flags) "00-" ≡ true =
      starts_with-append "00-" (p.trace_id +s middle) in
    let body : drop_text 3 (traceparent_of p.trace_id p.span_id p.flags) ≡ p.trace_id +s middle =
      drop_text-append "00-" (p.trace_id +s middle) in
    let (trace, after_trace) = front 32 p.trace_id middle a in
    let dash : starts_with middle "-" ≡ true = starts_with-append "-" (p.span_id +s last) in
    let span_on : drop_text 1 middle ≡ p.span_id +s last =
      drop_text-append "-" (p.span_id +s last) in
    let (span, after_span) = front 16 p.span_id last b in
    let dash_2 : starts_with last "-" ≡ true = starts_with-append "-" p.flags in
    let flags : drop_text 1 last ≡ p.flags = drop_text-append "-" p.flags in
    rw (begins, body, trace, after_trace, a, dash, span_on, span, after_span, b, dash_2, flags, c)

-- A group has digits alone, so the traceparent has digits and dashes alone.
hex_digits : (s : String) → all_hex s ≡ true → any_char (λ c. not (is_digit_or_dash c)) s ≡ false
unfolding all_hex any_char
hex_digits String.[] h = refl
hex_digits (String.◌∷◌ c s) h = ground (arith, hex_digits s)

no_space :
    (s : String) → any_char (λ c. not (is_digit_or_dash c)) s ≡ false → any_char is_space s ≡ false
unfolding any_char is_space
no_space String.[] h = refl
no_space (String.◌∷◌ c s) h = ground (arith, no_space s)

-- The parts of a context that the module sends on.
abbrev pub Sendable : TraceParts → Type 0
Sendable p =
    (is_group 32 p.trace_id ≡ true)
    × (is_group 16 p.span_id ≡ true)
    × (is_group 2 p.flags ≡ true)
    × ((p.trace_id =s= zeros_32) ≡ false)
    × ((p.span_id =s= zeros_16) ≡ false)

unfoldable pub sent : TraceParts → String × String
sent p = (p.trace_id, traceparent_of p.trace_id p.span_id p.flags)

group_digits :
    (n : ℕ) (s : String) → is_group n s ≡ true → any_char (λ c. not (is_digit_or_dash c)) s ≡ false
group_digits n s h = hex_digits s ((&&_both (text_length s == n) (all_hex s) h).1)

joined_digits :
    (s t : String)
    → any_char (λ c. not (is_digit_or_dash c)) s ≡ false
    → any_char (λ c. not (is_digit_or_dash c)) t ≡ false
    → any_char (λ c. not (is_digit_or_dash c)) (s +s t) ≡ false
joined_digits s t h k = any_char-append (λ c. not (is_digit_or_dash c)) s t ∙ rw (h, k)

sent_digits :
    (p : TraceParts)
    → Sendable p
    → any_char (λ c. not (is_digit_or_dash c)) (traceparent_of p.trace_id p.span_id p.flags) ≡ false
unfolding any_char
sent_digits p (a, b, c, _, _) =
    let last = "-" +s p.flags in
    let from_span = p.span_id +s last in
    let middle = "-" +s from_span in
    joined_digits "00-" (p.trace_id +s middle) refl (
      joined_digits p.trace_id middle (group_digits 32 p.trace_id a) (
        joined_digits "-" from_span refl (
          joined_digits p.span_id last (group_digits 16 p.span_id b)
            (joined_digits "-" p.flags refl (group_digits 2 p.flags c)))))

begun_is_given : (s : String) → starts_with s "00-" ≡ true → non_blank (some s) ≡ some s
unfolding starts_with
begun_is_given String.[] h = absurd (cc)
begun_is_given (String.◌∷◌ c s) h = refl

-- What is sent on is accepted, with its own parts.
pub sent_accepted :
    (lower : String → String) (p : TraceParts)
    → Lowers lower
    → Sendable p
    → accepted_traceparent lower (non_blank (some (traceparent_of p.trace_id p.span_id p.flags)))
      ≡ some p
unfolding accepted_traceparent
sent_accepted lower p law s =
    let tp = traceparent_of p.trace_id p.span_id p.flags in
    let digits = sent_digits p s in
    let given =
      begun_is_given tp
        (starts_with-append "00-" (p.trace_id +s ("-" +s (p.span_id +s ("-" +s p.flags))))) in
    let same : lower (strip tp) ≡ tp =
      ap lower (strip_lem tp (no_space tp digits)) ∙ law tp digits in
    let kept : unless_zero (some p) ≡ some p = rw (s.3, s.4) in
    ap (accepted_traceparent lower) given
    ∙ ap (λ x. unless_zero (match_traceparent x)) same
    ∙ ap unless_zero (match_back p s.0 s.1 s.2)
    ∙ kept

pub some_if :
    {A : Type 0} (c : Bool) (a p : A) → (if c then some a else none) ≡ some p → (c ≡ true) × (a ≡ p)
some_if true a p h = (refl, cc)
some_if false a p h = absurd (cc)

pub matched_groups :
    (s : String) (p : TraceParts)
    → match_traceparent s ≡ some p
    → (is_group 32 p.trace_id ≡ true) × (is_group 2 p.flags ≡ true)
unfolding match_traceparent
matched_groups s p h =
    let after_trace = drop_text 32 (drop_text 3 s) in
    let span = take_text 16 (drop_text 1 after_trace) in
    let after_span = drop_text 16 (drop_text 1 after_trace) in
    let (all, same) = some_if _ _ p h in
    let (_, a) = &&_both (starts_with s "00-") _ all in
    let (trace, b) = &&_both (is_group 32 (take_text 32 (drop_text 3 s))) _ a in
    let (_, c) = &&_both (starts_with after_trace "-") _ b in
    let (_, d) = &&_both (is_group 16 span) _ c in
    let (_, flags) = &&_both (starts_with after_span "-") (is_group 2 (drop_text 1 after_span)) d in
    (
      subst (λ (q : TraceParts). is_group 32 q.trace_id ≡ true) same trace,
      subst (λ (q : TraceParts). is_group 2 q.flags ≡ true) same flags,
    )

pub kept_digits : (s : String) → all_hex (keep_hex s) ≡ true
unfolding all_hex any_char keep_hex
kept_digits String.[] = refl
kept_digits (String.◌∷◌ c s) = ground (arith, kept_digits s)

pub none_if :
    {A : Type 0} (c : Bool) (a r : A)
    → (if c then none else some a) ≡ some r
    → (c ≡ false) × (a ≡ r)
none_if true a r k = absurd (cc)
none_if false a r k = (refl, cc)
