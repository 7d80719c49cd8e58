-- ===== src/Tests/Cursors.antt =====
-- The theorem on a cursor's text, at small concrete data.
use hamicloud.Session.{ok}
use hamicloud.Prelude.{
  arith, ◌+◌, false, [], ◌∙◌, ◌∷◌, some, refl, none, ◌%◌, any_char, Option, ap, text_length, String,
  ◌≡◌, ℕ,
}
use hamicloud.Tests.Tokens.{unary, decoded_from, unary_back, unary_blocks, origin}
use hamicloud.Core.Pagination.Cursors.{encode_cursor, CursorForms, decode_cursor}
use hamicloud.Core.Pagination.Restored.{Documented, Restorable, cursor_restored}
use hamicloud.Core.Crypto.{equals_signs, Bytes}

-- A code whose texts end in three signs of padding.
unfoldable signed : Bytes → String
unfolding unary
signed [] = "A==="
signed (b ∷ bs) = unary b (signed bs)

signed_back : (bs : Bytes) → decoded_from 0 (signed bs) ≡ bs
unfolding signed decoded_from
signed_back [] = refl
signed_back (b ∷ bs) =
    unary_back b 0 (signed bs)
    ∙ ap (λ l. (0 + b) ∷ l) (signed_back bs)
    ∙ ap (λ m. m ∷ bs) (omega arith)

signed_blocks : (bs : Bytes) → text_length (signed bs) % 4 ≡ 0
unfolding signed text_length
signed_blocks [] = refl
signed_blocks (b ∷ bs) = unary_blocks b (signed bs) (signed_blocks bs)

abbrev first : Bytes → Option ℕ
first [] = none
first (b ∷ bs) = some b

-- One time is known, and its text.
unfoldable forms : CursorForms ℕ
unfolding signed decoded_from unary
forms = record {
  isoformat = λ dt. "2026-01-01T00:00:00+00:00";
  fromisoformat = λ s. some 1767225600;
  is_naive = λ dt. false;
  replace_utc = λ dt. dt;
  astimezone_utc = λ dt. some dt;
  year = λ dt. 2026;
  text_of = λ id. unary id "";
  uuid_of = λ s. first (decoded_from 0 s);
  utf8 = λ s. 1 ∷ [];
  from_utf8 = λ b. some "2026-01-01T00:00:00+00:00|AAAABBBB";
  urlsafe_b64encode = signed;
  urlsafe_b64decode = λ s. some (decoded_from 0 s);
}

forms-Documented : Documented forms
unfolding forms
forms-Documented = record {
  b64_back = λ b. ap some (signed_back b);
  b64_blocks = signed_blocks;
  uuid_back = λ id. ap first (unary_back id 0 "") ∙ ap some (omega arith);
}

forms-Restorable : Restorable forms 1767225600
unfolding forms any_char
forms-Restorable = record {
  iso_back = refl;
  no_bar = refl;
  aware = refl;
  utc = refl;
  from_1970 = refl;
  to_9999 = refl;
}

cursor_restored_example : (decode_cursor forms "AAAABBBBA" origin).0 ≡ ok (1767225600, 1)
unfolding forms encode_cursor equals_signs
cursor_restored_example =
    cursor_restored forms forms-Documented 1767225600 1 "AAAABBBBA" 3 origin forms-Restorable refl
      refl refl
