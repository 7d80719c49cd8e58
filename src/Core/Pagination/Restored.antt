-- ===== src/Core/Pagination/Restored.antt =====
-- The round trip of a cursor's text form in apps/api/app/core/pagination.py.
use hamicloud.Session.{ok, Tx}
use hamicloud.Models.Tenancy.{Uuid}
use hamicloud.Prelude.{
  sym, subst, refl, zero, false, arith, true, ◌∙◌, ap, ◌%◌, ◌==◌, suc, some, any_char, ◌+◌, ltb, ℕ,
  after_char, ◌+s◌, ◌≡◌, before_char, String, text_length,
}
use hamicloud.Core.Pagination.Cursors.{encode_cursor, payload, decode_cursor, of_raw, CursorForms}
use hamicloud.Core.Crypto.{padded, equals_signs, Bytes}
use hamicloud.Prelude.Spliced.{before_char-append, after_char-append}
use Prim.Native.Char.{char}
use text.Mathlib.TextLemmas.{cons-append, nil-append}

-- What the module relies on in base64 and UUIDs.
pub record Documented {D : Type 0} (lib : CursorForms D) : Type 0 where
  pub b64_back : (b : Bytes) → lib.urlsafe_b64decode (lib.urlsafe_b64encode b) ≡ some b
  pub b64_blocks : (b : Bytes) → text_length (lib.urlsafe_b64encode b) % 4 ≡ 0
  pub uuid_back : (id : Uuid) → lib.uuid_of (lib.text_of id) ≡ some id

-- A time in UTC of a year that a cursor may have, which its text restores.
pub record Restorable {D : Type 0} (lib : CursorForms D) (dt : D) : Type 0 where
  pub iso_back : lib.fromisoformat (lib.isoformat dt) ≡ some dt
  pub no_bar : any_char (λ c. c == b'|') (lib.isoformat dt) ≡ false
  pub aware : lib.is_naive dt ≡ false
  pub utc : lib.astimezone_utc dt ≡ some dt
  pub from_1970 : ltb (lib.year dt) 1970 ≡ false
  pub to_9999 : ltb 9999 (lib.year dt) ≡ false

text_length-append : (s t : String) → text_length (s +s t) ≡ text_length s + text_length t
unfolding text_length
text_length-append String.[] t = ap text_length (nil-append t) ∙ omega arith
text_length-append (String.◌∷◌ c s) t =
    ap text_length (cons-append c s t) ∙ ground (arith, text_length-append s t)

signs_length : (n : ℕ) → text_length (equals_signs n) ≡ n
unfolding text_length equals_signs
signs_length zero = refl
signs_length (suc n) = text_length-append "=" (equals_signs n) ∙ omega (arith, signs_length n)

-- The padding that was stripped is put back.
padded_again :
    (s : String) (n : ℕ)
    → ltb n 4 ≡ true
    → text_length (s +s equals_signs n) % 4 ≡ 0
    → padded s ≡ s +s equals_signs n
unfolding padded
padded_again s n small whole =
    let long = text_length-append s (equals_signs n) in
    let signs = signs_length n in ap (λ k. s +s equals_signs k) (ground arith)

bar_splits :
    (s t : String)
    → any_char (λ c. c == b'|') s ≡ false
    → (before_char b'|' (s +s "|" +s t) ≡ s) × (after_char b'|' (s +s "|" +s t) ≡ some t)
unfolding before_char after_char
bar_splits s t h =
    let bar = cons-append (char 124 tt) "" t in
    (
      before_char-append b'|' s ("|" +s t) h (ap (before_char b'|') bar ∙ refl),
      after_char-append b'|' s ("|" +s t) h ∙ ap (after_char b'|') bar ∙ ap some (nil-append t),
    )

module _ {D : Type 0} (lib : CursorForms D) (documented : Documented lib) (dt : D) (id : Uuid) where
  raw_restored : Restorable lib dt → of_raw lib (some (payload lib dt id)) ≡ some (dt, id)
  unfolding of_raw
  raw_restored r =
      let (before, after) = bar_splits (lib.isoformat dt) (lib.text_of id) r.no_bar in
      rw
        (before, after, r.iso_back, r.aware, r.utc, r.from_1970, r.to_9999, documented.uuid_back id)

  -- Where base64 and the texts of UUIDs decode to what was encoded, a cursor of an aware UTC time
  -- in the supported years that its ISO text restores, whose payload UTF-8 restores, decodes to the
  -- same time and identifier, also after at most three "=" were stripped from its end.
  pub cursor_restored :
      (given : String) (n : ℕ) (t : Tx)
      → Restorable lib dt
      → lib.from_utf8 (lib.utf8 (payload lib dt id)) ≡ some (payload lib dt id)
      → ltb n 4 ≡ true
      → encode_cursor lib dt id ≡ given +s equals_signs n
      → (decode_cursor lib given t).0 ≡ ok (dt, id)
  unfolding decode_cursor encode_cursor
  cursor_restored given n t r back small stripped =
      let bytes = lib.utf8 (payload lib dt id) in
      let whole : text_length (given +s equals_signs n) % 4 ≡ 0 =
        subst (λ s. text_length s % 4 ≡ 0) stripped (documented.b64_blocks bytes) in
      let again : padded given ≡ lib.urlsafe_b64encode bytes =
        padded_again given n small whole ∙ sym stripped in
      let raw = raw_restored r in rw (again, documented.b64_back bytes, back, raw)
