-- ===== src/Main/Reported.antt =====
-- What the errors of apps/api/app/main.py report.
use hamicloud.Models.Json.{end, field, Json, Fields}
use hamicloud.Main.Errors.{
  error_details, RequestState, member_code, http_exception_handler, custom_code, dictionary,
  is_reserved, error_codes, message_text, non_empty, other_fields, Body, status_error_code,
  get_field,
}
use hamicloud.Prelude.{
  inr, eq_iff, [], ◌∙◌, ◌∷◌, ap, first, inl, false, List, or_default, Bool, Bool-cases, ◌==◌, true,
  refl, none, if◌then◌else◌, arith, some, ◌=s=◌, ◌≡◌, any, ℕ, Option, String,
}
use hamicloud.Core.Events.{Headers}

-- A field of an exception's body, and of the details of an answer.
unfoldable pub body_field : String → Body → Option Json
unfolding get_field
body_field k (message_text s) = none
body_field k (dictionary fs) = get_field k fs

unfoldable pub detail_field : String → Option Fields → Option Json
unfolding get_field
detail_field k none = none
detail_field k (some fs) = get_field k fs

abbrev pub unless_reserved : String → Option Json → Option Json
unless_reserved k v = if is_reserved k then none else v

kept_fields :
    (k : String) (fs : Fields) → get_field k (other_fields fs) ≡ unless_reserved k (get_field k fs)
unfolding get_field other_fields
kept_fields k end = ground arith
kept_fields k (field j v rest) = elim (Bool-cases (j =s= k)) [
  | inl same ↦
      let e : is_reserved j ≡ is_reserved k = ap is_reserved ((eq_iff j k).0 same) in
      elim (Bool-cases (is_reserved j)) [
        | inl out ↦ ground (arith, kept_fields k rest)
        | inr kept ↦ ground (arith, kept_fields k rest)
      ]
  | inr other ↦ elim (Bool-cases (is_reserved j)) [
    | inl out ↦ ground (arith, kept_fields k rest)
    | inr kept ↦ ground (arith, kept_fields k rest)
  ]
]

non_empty_lem : (k : String) (fs : Fields) → detail_field k (non_empty fs) ≡ get_field k fs
unfolding detail_field get_field
non_empty_lem k end = refl
non_empty_lem k (field j v rest) = refl

abbrev pub is_member : String → Bool
is_member code = any (λ c. c =s= code) error_codes

either_member :
    (b : Bool) (c d : String)
    → is_member c ≡ true
    → is_member d ≡ true
    → is_member (if b then c else d) ≡ true
either_member true c d p q = p
either_member false c d p q = q

status_member : (n : ℕ) → is_member (status_error_code n) ≡ true
unfolding status_error_code
status_member n = either_member (n == 400) _ _ refl (
    either_member (n == 405) _ _ refl (
      either_member (n == 401) _ _ refl (
        either_member (n == 403) _ _ refl (
          either_member (n == 404) _ _ refl (
            either_member (n == 409) _ _ refl (
              either_member (n == 422) _ _ refl (
                either_member (n == 429) _ _ refl (
                  either_member (n == 501) _ _ refl (either_member (n == 503) _ _ refl refl)))))))))

first_is_member :
    (p : String → Bool) (cs : List String) (c : String)
    → first p cs ≡ some c
    → any (λ d. d =s= c) cs ≡ true
first_is_member p [] c h = absurd (cc)
first_is_member p (d ∷ cs) c h = elim (Bool-cases (p d)) [
  | inl hit ↦
      let e : d ≡ c = ground arith in let same : (d =s= c) ≡ true = (eq_iff d c).1 e in ground arith
  | inr miss ↦ ground (arith, first_is_member p cs c)
]

custom_member : (body : Body) (c : String) → custom_code body ≡ some c → is_member c ≡ true
unfolding custom_code
custom_member (message_text s) c h = absurd (cc)
custom_member (dictionary fs) c h = from_field (get_field "error_code" fs) h
  where
    from_field : (v : Option Json) → member_code v ≡ some c → is_member c ≡ true
    from_field (some (Json.text code)) e = first_is_member (λ d. d =s= code) error_codes c e
    from_field other e = absurd (cc)

code_member :
    (o : Option String) (n : ℕ)
    → ((c : String) → o ≡ some c → is_member c ≡ true)
    → is_member (or_default o (status_error_code n)) ≡ true
code_member none n f = status_member n
code_member (some c) n f = f c refl

-- An HTTP error is answered with its own status and with a code of the published list; its details
-- hold the fields of the exception's dictionary, and neither the message nor the code.
pub errors_reported :
    (str : Json → String) (r : RequestState) (status : ℕ) (body : Body) (headers : Headers)
    (k : String)
    → ((http_exception_handler str r status body headers).status_code ≡ status)
      × (is_member (http_exception_handler str r status body headers).error_code ≡ true)
      × (detail_field k (http_exception_handler str r status body headers).details
          ≡ unless_reserved k (body_field k body))
unfolding http_exception_handler error_details detail_field body_field
errors_reported str r status (message_text s) headers k = (
  refl,
  code_member (custom_code (message_text s)) status (custom_member (message_text s)),
  ground arith,
)
errors_reported str r status (dictionary fs) headers k = (
  refl,
  code_member (custom_code (dictionary fs)) status (custom_member (dictionary fs)),
  non_empty_lem k (other_fields fs) ∙ kept_fields k fs,
)
