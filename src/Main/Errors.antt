-- ===== src/Main/Errors.antt =====
-- The exception handlers of apps/api/app/main.py.
use hamicloud.Session.{
  idempotency_conflict, image_policy_violation, rate_limited, quota_exceeded, Detail,
}
use hamicloud.Prelude.{
  ◌+s◌, ◌||◌, ◌=s=◌, ◌==◌, is_blank, first, Bool, [], if◌then◌else◌, or_default, some, ◌∷◌, ℕ, List,
  String, none, Option,
}
use hamicloud.Models.Json.{array, number, cons, nil, end, Items, field, Fields, Json}
use hamicloud.Core.Events.{put_header, update_headers, Headers}

-- What `correlation_id_middleware` keeps in the request's state.
pub record RequestState : Type 0 where
  pub correlation_id : String
  pub trace_id : String
  pub traceparent : String

-- The detail of an HTTPException: a text, or a dictionary.
pub data Body : Type 0 where
  message_text : String → Body
  dictionary : Fields → Body

-- `ErrorResponse` with its status and headers.
pub record ErrorAnswer : Type 0 where
  pub status_code : ℕ
  pub error_code : String
  pub message : String
  pub correlation_id : String
  pub details : Option Fields
  pub headers : Headers

-- ErrorCode.__members__
abbrev pub error_codes : List String
error_codes =
    "VALIDATION_ERROR" ∷ "UNAUTHORIZED" ∷ "FORBIDDEN" ∷ "NOT_FOUND" ∷ "METHOD_NOT_ALLOWED"
    ∷ "CONFLICT" ∷ "IDEMPOTENCY_CONFLICT" ∷ "BAD_REQUEST" ∷ "SERVICE_UNAVAILABLE"
    ∷ "NOT_IMPLEMENTED" ∷ "INTERNAL_SERVER_ERROR" ∷ "IMAGE_POLICY_VIOLATION" ∷ "RATE_LIMITED"
    ∷ "QUOTA_EXCEEDED" ∷ []

-- The code of a status.
unfoldable pub status_error_code : ℕ → String
status_error_code n =
    if n == 400
    then "BAD_REQUEST"
    else if n == 405
    then "METHOD_NOT_ALLOWED"
    else if n == 401
    then "UNAUTHORIZED"
    else if n == 403
    then "FORBIDDEN"
    else if n == 404
    then "NOT_FOUND"
    else if n == 409
    then "CONFLICT"
    else if n == 422
    then "VALIDATION_ERROR"
    else if n == 429
    then "RATE_LIMITED"
    else if n == 501
    then "NOT_IMPLEMENTED"
    else if n == 503
    then "SERVICE_UNAVAILABLE"
    else "INTERNAL_SERVER_ERROR"

-- `detail.get(key)`
unfoldable pub get_field : String → Fields → Option Json
get_field key end = none
get_field key (field k v rest) =
    let later = get_field key rest in if k =s= key then some v else later

-- `k not in ("message", "error_code")`
abbrev pub is_reserved : String → Bool
is_reserved k = k =s= "message" || k =s= "error_code"

unfoldable pub other_fields : Fields → Fields
other_fields end = end
other_fields (field k v rest) =
    let others = other_fields rest in if is_reserved k then others else field k v others

-- `if not details: details = None`
abbrev pub non_empty : Fields → Option Fields
non_empty end = none
non_empty (field k v rest) = some (field k v rest)

-- `str` of a JSON value that is no text is a parameter.
abbrev pub str_json : (Json → String) → Json → String
str_json str (Json.text s) = s
str_json str other = str other

abbrev pub message_or_default : (Json → String) → Option Json → String
message_or_default str none = "An error occurred"
message_or_default str (some v) = str_json str v

unfoldable pub message_of : (Json → String) → Body → String
unfolding get_field
message_of str (message_text s) = s
message_of str (dictionary fs) = message_or_default str (get_field "message" fs)

unfoldable pub error_details : Body → Option Fields
unfolding other_fields
error_details (message_text s) = none
error_details (dictionary fs) = non_empty (other_fields fs)

-- `custom_error_code and custom_error_code in ErrorCode.__members__`
abbrev pub member_code : Option Json → Option String
member_code (some (Json.text code)) = first (λ c. c =s= code) error_codes
member_code other = none

unfoldable pub custom_code : Body → Option String
unfolding get_field
custom_code (message_text s) = none
custom_code (dictionary fs) = member_code (get_field "error_code" fs)

-- `if value: headers[key] = value`
unfoldable pub put_if_given : String → String → Headers → Headers
unfolding put_header
put_if_given key value headers =
    let more = put_header key value headers in if is_blank value then headers else more

unfoldable pub state_headers : RequestState → Headers
unfolding put_if_given
state_headers r =
    put_if_given "traceparent" r.traceparent
      (put_if_given "X-Trace-ID" r.trace_id (("X-Correlation-ID", r.correlation_id) ∷ []))

unfoldable pub http_exception_handler :
    (Json → String) → RequestState → ℕ → Body → Headers → ErrorAnswer
unfolding status_error_code message_of error_details custom_code state_headers update_headers
http_exception_handler str r status body exc_headers = record {
  status_code = status;
  error_code = or_default (custom_code body) (status_error_code status);
  message = message_of str body;
  correlation_id = r.correlation_id;
  details = error_details body;
  headers = update_headers (state_headers r) exc_headers;
}

-- The errors that pydantic reports stand under "errors".
unfoldable pub validation_exception_handler : RequestState → Json → ErrorAnswer
unfolding state_headers
validation_exception_handler r errors = record {
  status_code = 422;
  error_code = "VALIDATION_ERROR";
  message = "Request validation failed";
  correlation_id = r.correlation_id;
  details = some (field "errors" errors end);
  headers = state_headers r;
}

unfoldable pub unhandled_exception_handler : RequestState → ErrorAnswer
unfolding state_headers
unhandled_exception_handler r = record {
  status_code = 500;
  error_code = "INTERNAL_SERVER_ERROR";
  message = "An unexpected internal platform error occurred.";
  correlation_id = r.correlation_id;
  details = none;
  headers = state_headers r;
}

-- The bodies of the exceptions that the handlers raise; `str` of a number is a parameter.
abbrev pub texts : List String → Items
texts [] = nil
texts (s ∷ ss) = cons (Json.text s) (texts ss)

unfoldable pub body_of : (ℕ → String) → Detail → Body
body_of str_number (Detail.text s) = message_text s
body_of str_number idempotency_conflict = dictionary (
    field "message" (Json.text "Idempotency key reused with different request payload")
      (field "error_code" (Json.text "IDEMPOTENCY_CONFLICT") end))
body_of str_number (quota_exceeded class limit retry_after) = dictionary (
    field "error_code" (Json.text "QUOTA_EXCEEDED") (
      field "message"
        (Json.text
          ("Workspace quota exceeded for " +s class +s " (limit=" +s str_number limit +s ")"))
        (field "resource_class" (Json.text class) (field "limit" (number limit) end))))
body_of str_number (rate_limited limit) = dictionary (
    field "error_code" (Json.text "RATE_LIMITED") (
      field "message"
        (Json.text ("Workspace rate limit exceeded (" +s str_number limit +s " requests/minute)"))
        (field "limit" (number limit) end)))
body_of str_number (image_policy_violation image patterns) = dictionary (
    field "error_code" (Json.text "IMAGE_POLICY_VIOLATION") (
      field "message" (Json.text ("Image '" +s image +s "' violates platform image policy.")) (
        field "image_digest" (Json.text image)
          (field "allowed_registries" (array (texts patterns)) end))))
