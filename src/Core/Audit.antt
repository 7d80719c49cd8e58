-- ===== src/Core/Audit.antt =====
-- apps/api/app/core/audit.py: audit details lose their secrets before they are staged.
pub mod Redaction
use hamicloud.Session.{stage, M}
use hamicloud.Models.Tenancy.{Uuid}
use hamicloud.Prelude.{
  any, true, ◌=s=◌, some, Bool, [], if◌then◌else◌, ◌∷◌, ◌∷◌, String, List, contains_text, ℕ,
}
use hamicloud.Models.Json.{
  Json, null, boolean, number, text, dict, array, Fields, end, field, Items, nil, cons,
}
use hamicloud.Models.Db.{insert_audit}
use hamicloud.Env.{Env}

-- _SENSITIVE_KEY_MARKERS
abbrev pub sensitive_key_markers : List String
sensitive_key_markers =
    "secret" ∷ "password" ∷ "passwd" ∷ "token" ∷ "api_key" ∷ "apikey" ∷ "private_key"
    ∷ "encrypted_value" ∷ []

-- Whether a key's value is redacted, from the key in lower case.
unfoldable pub is_sensitive : String → Bool
unfolding contains_text
is_sensitive key =
    if key =s= "value" then true else any (λ marker. contains_text marker key) sensitive_key_markers

abbrev pub redacted : Json
redacted = text "[REDACTED]"

unfoldable mutual
  pub sanitize_audit_value : (String → String) → Json → Json
  sanitize_audit_value lower (dict fs) = dict (sanitize_audit_details lower fs)
  sanitize_audit_value lower (array xs) = array (sanitize_items lower xs)
  sanitize_audit_value lower null = null
  sanitize_audit_value lower (boolean b) = boolean b
  sanitize_audit_value lower (number n) = number n
  sanitize_audit_value lower (text s) = text s

  pub sanitize_audit_details : (String → String) → Fields → Fields
  sanitize_audit_details lower end = end
  sanitize_audit_details lower (field k v fs) =
      field k (if is_sensitive (lower k) then redacted else sanitize_audit_value lower v)
        (sanitize_audit_details lower fs)

  pub sanitize_items : (String → String) → Items → Items
  sanitize_items lower nil = nil
  sanitize_items lower (cons x xs) = cons (sanitize_audit_value lower x) (sanitize_items lower xs)

-- `record_audit_event` with its default result; the row's identifier is the nth UUID.
unfoldable pub record_audit_event :
    Env → ℕ → Uuid → String → String → String → String → Fields → M (Unit {0})
record_audit_event env n ws actor action target_type target_id details = stage (
    insert_audit (record {
      id = env.uuid n;
      workspace_id = some ws;
      actor_subject = actor;
      action = action;
      target_type = target_type;
      target_id = target_id;
      result = "SUCCESS";
      details_json = dict (sanitize_audit_details env.lower details);
      created_at = env.now;
    }))
