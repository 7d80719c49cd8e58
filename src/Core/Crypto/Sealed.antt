-- ===== src/Core/Crypto/Sealed.antt =====
-- The round trip of apps/api/app/core/crypto.py.
use hamicloud.Models.Tenancy.{Uuid}
use hamicloud.Prelude.Spliced.{starts_with-append, drop_text-append}
use hamicloud.Prelude.{
  ltb, false, ◌∙◌, ◌-◌, drop, subst, is_blank, Option, refl, ap, [], arith, ◌%◌, ◌+◌, ◌∷◌, some,
  true, ◌+s◌, ◌++◌, ◌≡◌, text_length, length, String, drop_text, take, starts_with, List,
}
use hamicloud.Core.Crypto.{
  plaintext, build_aad, encrypt_secret, derive_aes_key, open_payload, decrypt_secret, Bytes,
  equals_signs, Primitives, padded,
}
use hamicloud.Env.{Settings}
use Prim.Native.Char.{Char}
use text.Mathlib.TextLemmas.{cons-append, append-nil}

-- What the module relies on.
pub record Documented (lib : Primitives) : Type 0 where
  pub b64_back : (b : Bytes) → lib.urlsafe_b64decode (lib.urlsafe_b64encode b) ≡ some b
  pub b64_blocks : (b : Bytes) → text_length (lib.urlsafe_b64encode b) % 4 ≡ 0
  pub gcm_back :
      (key nonce text : Bytes) (aad : Option Bytes)
      → lib.gcm_decrypt key nonce (lib.gcm_encrypt key nonce text aad) aad ≡ some text
  pub gcm_tag :
      (key nonce text : Bytes) (aad : Option Bytes)
      → length (lib.gcm_encrypt key nonce text aad) ≡ length text + 16

take-append : {A : Type 0} (xs ys : List A) → take (length xs) (xs ++ ys) ≡ xs
take-append [] ys = refl
take-append (x ∷ xs) ys = ap (λ l. x ∷ l) (take-append xs ys)

drop-append : {A : Type 0} (xs ys : List A) → drop (length xs) (xs ++ ys) ≡ ys
drop-append [] ys = refl
drop-append (x ∷ xs) ys = drop-append xs ys

length-append : {A : Type 0} (xs ys : List A) → length (xs ++ ys) ≡ length xs + length ys
length-append [] ys = omega arith
length-append (x ∷ xs) ys = ground (arith, length-append xs ys)

blank-append : (c : Char) (p s : String) → is_blank (String.◌∷◌ c p +s s) ≡ false
blank-append c p s = ap is_blank (cons-append c p s)

padded_lem : (s : String) → text_length s % 4 ≡ 0 → padded s ≡ s
unfolding padded equals_signs
padded_lem s h = ap (λ n. s +s equals_signs ((4 - n) % 4)) h ∙ append-nil s

-- What `decrypt_secret` finds in a token that `encrypt_secret` made.
module _ (lib : Primitives) (documented : Documented lib) (s : Settings) (ws : Option Uuid)
    (name key : Option String) where
  opened :
      (nonce : Bytes) (text : String)
      → length nonce ≡ 12
      → lib.from_utf8 (lib.utf8 text) ≡ some text
      → open_payload lib s ws name key (
          some (
            nonce
            ++ lib.gcm_encrypt
                (derive_aes_key lib s key)
                nonce
                (lib.utf8 text)
                (build_aad lib ws name)))
        ≡ plaintext text
  unfolding open_payload
  opened nonce text twelve back =
      let k = derive_aes_key lib s key in
      let aad = build_aad lib ws name in
      let ct = lib.gcm_encrypt k nonce (lib.utf8 text) aad in
      let long : ltb (length (nonce ++ ct)) (12 + 16) ≡ false =
        ground (arith, length-append nonce ct, documented.gcm_tag k nonce (lib.utf8 text) aad) in
      let first_part : take 12 (nonce ++ ct) ≡ nonce =
        subst (λ n. take n (nonce ++ ct) ≡ nonce) twelve (take-append nonce ct) in
      let second_part : drop 12 (nonce ++ ct) ≡ ct =
        subst (λ n. drop n (nonce ++ ct) ≡ ct) twelve (drop-append nonce ct) in
      rw (long, first_part, second_part, documented.gcm_back k nonce (lib.utf8 text) aad, back)

  token_opened :
      (raw : Bytes)
      → decrypt_secret lib s ("v1:" +s lib.urlsafe_b64encode raw) ws name key
        ≡ open_payload lib s ws name key (some raw)
  unfolding decrypt_secret
  token_opened raw =
      let b = lib.urlsafe_b64encode raw in
      let full : is_blank ("v1:" +s b) ≡ false = blank-append _ _ b in
      let starts : starts_with ("v1:" +s b) "v1:" ≡ true = starts_with-append "v1:" b in
      let rest : drop_text 3 ("v1:" +s b) ≡ b = drop_text-append "v1:" b in
      let whole : padded b ≡ b = padded_lem b (documented.b64_blocks raw) in
      rw (full, starts, rest, whole, documented.b64_back raw)

  -- Under the same key, workspace and name, a token of a text that UTF-8 encodes and decodes decrypts to that
  -- text, for each nonce of 12 bytes.
  pub secret_sealed :
      (nonce : Bytes) (text : String)
      → length nonce ≡ 12
      → lib.from_utf8 (lib.utf8 text) ≡ some text
      → decrypt_secret lib s (encrypt_secret lib s nonce text ws name key) ws name key
        ≡ plaintext text
  unfolding encrypt_secret
  secret_sealed nonce text twelve back =
      token_opened (
        nonce
        ++ lib.gcm_encrypt (derive_aes_key lib s key) nonce (lib.utf8 text) (build_aad lib ws name))
      ∙ opened nonce text twelve back
