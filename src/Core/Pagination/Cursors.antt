-- ===== src/Core/Pagination/Cursors.antt =====
-- The text form of a cursor in apps/api/app/core/pagination.py.
use hamicloud.Session.{text, found, M}
use hamicloud.Models.Tenancy.{Uuid}
use hamicloud.Prelude.{
  none, ◌||◌, ltb, ℕ, if◌then◌else◌, after_char, Bool, some, ◌+s◌, String, before_char, Option,
}
use hamicloud.Core.Crypto.{padded, Bytes}

-- What the module calls: a datetime's `isoformat`, `fromisoformat`, `tzinfo is None`, `replace` and
-- `astimezone` to UTC and `year`, the text of a UUID, UTF-8 and base64. A function gives none where
-- it raises.
pub record CursorForms (D : Type 0) : Type 0 where
  pub isoformat : D → String
  pub fromisoformat : String → Option D
  pub is_naive : D → Bool
  pub replace_utc : D → D
  pub astimezone_utc : D → Option D
  pub year : D → ℕ
  pub text_of : Uuid → String
  pub uuid_of : String → Option Uuid
  pub utf8 : String → Bytes
  pub from_utf8 : Bytes → Option String
  pub urlsafe_b64encode : Bytes → String
  pub urlsafe_b64decode : String → Option Bytes

module _ {D : Type 0} (lib : CursorForms D) where
  abbrev pub payload : D → Uuid → String
  payload created_at id = lib.isoformat created_at +s "|" +s lib.text_of id

  unfoldable pub encode_cursor : D → Uuid → String
  encode_cursor created_at id = lib.urlsafe_b64encode (lib.utf8 (payload created_at id))

  abbrev pub in_utc : D → Option D
  in_utc dt = if lib.is_naive dt then some (lib.replace_utc dt) else lib.astimezone_utc dt

  abbrev pub with_id : D → Option Uuid → Option (D × Uuid)
  with_id dt none = none
  with_id dt (some id) = some (dt, id)

  abbrev pub in_range : String → Option D → Option (D × Uuid)
  in_range id none = none
  in_range id (some dt) =
      if ltb (lib.year dt) 1970 || ltb 9999 (lib.year dt) then none else with_id dt (lib.uuid_of id)

  abbrev pub dated : String → Option D → Option (D × Uuid)
  dated id none = none
  dated id (some dt) = in_range id (in_utc dt)

  abbrev pub of_parts : String → Option String → Option (D × Uuid)
  of_parts date none = none
  of_parts date (some id) = dated id (lib.fromisoformat date)

  unfoldable pub of_raw : Option String → Option (D × Uuid)
  unfolding before_char after_char
  of_raw none = none
  of_raw (some raw) = of_parts (before_char b'|' raw) (after_char b'|' raw)

  abbrev pub of_bytes : Option Bytes → Option (D × Uuid)
  of_bytes none = none
  of_bytes (some b) = of_raw (lib.from_utf8 b)

  -- Any exception is a 400.
  unfoldable pub decode_cursor : String → M (D × Uuid)
  unfolding padded of_raw
  decode_cursor cursor =
      found (of_bytes (lib.urlsafe_b64decode (padded cursor))) 400
        (text "Invalid pagination cursor")
