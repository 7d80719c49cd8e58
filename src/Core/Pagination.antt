-- ===== src/Core/Pagination.antt =====
-- Keyset pagination: the page that the list endpoints of apps/api/app/api/v1 build from the rows
-- after a cursor, and the use of apps/api/app/core/pagination.py. The functions of a cursor's text
-- form are a parameter of the handlers; Cursors has them.
pub mod Cursors
pub mod Restored
pub mod Walk
use hamicloud.Prelude.{
  is_blank, some, none, ◌-◌, ◌-◌, get_elem?, ◌&&◌, ◌==◌, ◌+◌, ◌+◌, length, ◌==◌, take, select, ◌||◌,
  if◌then◌else◌, ◌||◌, List, true, ltb, Bool, order_by, Option, ℕ, String,
}
use hamicloud.Models.Tenancy.{Uuid, Time}
use mathlib.Core.Option
use hamicloud.Session.{M, pure, raise, text}

pub record Cursor : Type 0 where
  pub created_at : Time
  pub id : Uuid

-- `encode_cursor` and `decode_cursor`, which gives none for a malformed text.
pub record CursorCodec : Type 0 where
  pub encode : Cursor → String
  pub decode : String → Option Cursor

-- `order_by(created_at.desc(), id.desc())`
abbrev pub comes_before : Cursor → Cursor → Bool
comes_before a b = ltb b.created_at a.created_at || (a.created_at == b.created_at && ltb b.id a.id)

-- `created_at < ts or (created_at = ts and id < cursor_id)`
abbrev pub after_cursor : Option Cursor → Cursor → Bool
after_cursor none row = true
after_cursor (some c) row =
    ltb row.created_at c.created_at || (row.created_at == c.created_at && ltb row.id c.id)

abbrev decoded : Option Cursor → M (Option Cursor)
decoded none = raise 400 (text "Invalid pagination cursor")
decoded (some c) = pure (some c)

-- `if cursor: decode_cursor(cursor)`
unfoldable pub read_cursor : CursorCodec → Option String → M (Option Cursor)
read_cursor codec none = pure none
read_cursor codec (some given) = if is_blank given then pure none else decoded (codec.decode given)

module _ {A : Type 0} (key : A → Cursor) where
  unfoldable pub matching : Option Cursor → List A → List A
  unfolding order_by
  matching cursor rows =
      order_by (λ a b. comes_before (key a) (key b))
        (select (λ a. after_cursor cursor (key a)) rows)

  -- The rows of the page, and the cursor of the next one: one row more than the limit is fetched.
  unfoldable pub page_of : ℕ → List A → List A × Option Cursor
  page_of limit fetched =
      if ltb limit (length fetched)
      then (take limit fetched, Option.map key (get_elem? fetched (limit - 1)))
      else (fetched, none)

  unfoldable pub page : ℕ → Option Cursor → List A → List A × Option Cursor
  unfolding matching page_of
  page limit cursor rows = page_of limit (take (limit + 1) (matching cursor rows))
