-- ===== src/Core/Audit/Redaction.antt =====
-- What apps/api/app/core/audit.py leaves of the details that it records.
use hamicloud.Models.Tenancy.{Uuid}
use hamicloud.Prelude.{
  refl, arith, ◌&&◌, if◌then◌else◌, arith, false, ◌=s=◌, true, ◌≡◌, Bool, String, ℕ,
}
use hamicloud.Core.Audit.{
  sanitize_items, is_sensitive, sanitize_audit_details, sanitize_audit_value, record_audit_event,
}
use hamicloud.Models.Json.{
  Json, null, boolean, number, text, dict, array, Fields, end, field, Items, nil, cons,
}
use hamicloud.Session.Atomic.{Quiet, stage-Quiet}
use hamicloud.Env.{Env}

pub audit-Quiet :
    (env : Env) (n : ℕ) (ws : Uuid) (actor action kind target : String) (details : Fields)
    → Quiet (record_audit_event env n ws actor action kind target details)
unfolding record_audit_event
audit-Quiet env n ws actor action kind target details = stage-Quiet _

abbrev is_redacted : Json → Bool
is_redacted (text s) = s =s= "[REDACTED]"
is_redacted _ = false

-- Whether every sensitive key, at any depth, has the redacted text as its value.
unfoldable mutual
  pub is_clean : (String → String) → Json → Bool
  is_clean lower (dict fs) = are_clean lower fs
  is_clean lower (array xs) = all_clean lower xs
  is_clean lower null = true
  is_clean lower (boolean b) = true
  is_clean lower (number n) = true
  is_clean lower (text s) = true

  pub are_clean : (String → String) → Fields → Bool
  are_clean lower end = true
  are_clean lower (field k v fs) =
      (if is_sensitive (lower k) then is_redacted v else is_clean lower v) && are_clean lower fs

  pub all_clean : (String → String) → Items → Bool
  all_clean lower nil = true
  all_clean lower (cons x xs) = is_clean lower x && all_clean lower xs

mutual
  unfolding is_clean sanitize_audit_value

  value_clean :
      (lower : String → String) (v : Json) → is_clean lower (sanitize_audit_value lower v) ≡ true
  value_clean lower (dict fs) = sanitize_clean lower fs
  value_clean lower (array xs) = items_clean lower xs
  value_clean lower null = refl
  value_clean lower (boolean b) = refl
  value_clean lower (number n) = refl
  value_clean lower (text s) = refl

  sanitize_clean :
      (lower : String → String) (fs : Fields)
      → are_clean lower (sanitize_audit_details lower fs) ≡ true
  sanitize_clean lower end = refl
  sanitize_clean lower (field k v fs) =
      let a = value_clean lower v in let b = sanitize_clean lower fs in ground arith

  items_clean :
      (lower : String → String) (xs : Items) → all_clean lower (sanitize_items lower xs) ≡ true
  items_clean lower nil = refl
  items_clean lower (cons x xs) =
      let a = value_clean lower x in let b = items_clean lower xs in ground arith

-- In recorded audit details every key that holds a marker of a secret, at any depth of dictionaries
-- and arrays, has the text [REDACTED] as its value, whatever the details were.
pub audit_redacted :
    (lower : String → String) (fs : Fields)
    → are_clean lower (sanitize_audit_details lower fs) ≡ true
audit_redacted lower fs = sanitize_clean lower fs
