-- ===== src/Core/Crypto.antt =====
-- apps/api/app/core/crypto.py: the encryption of the secrets' values.
pub mod Sealed
use hamicloud.Core.Auth.Tokens.{non_blank}
use hamicloud.Models.Tenancy.{Uuid}
use hamicloud.Prelude.{
  drop, take, not, ◌+◌, ◌||◌, ◌==◌, is_blank, ◌%◌, length, ltb, [], none, ◌++◌, ◌∷◌, if◌then◌else◌,
  ◌-◌, zero, drop_text, some, suc, or_default, ◌+s◌, String, List, starts_with, strip, text_length,
  Option, ℕ,
}
use hamicloud.Env.{Settings, Env}

abbrev pub Bytes : Type 0
Bytes = List ℕ

-- What the module calls: `str.encode`, `bytes.decode`, base64, SHA-256, AES-256-GCM, and the text of a
-- UUID. A decoder gives none where it raises.
pub record Primitives : Type 0 where
  pub utf8 : String → Bytes
  pub from_utf8 : Bytes → Option String
  pub urlsafe_b64encode : Bytes → String
  pub urlsafe_b64decode : String → Option Bytes
  pub sha256 : Bytes → Bytes
  pub gcm_encrypt : Bytes → Bytes → Bytes → Option Bytes → Bytes
  pub gcm_decrypt : Bytes → Bytes → Bytes → Option Bytes → Option Bytes
  pub text_of : Uuid → String

pub data Decrypted : Type 0 where
  plaintext : String → Decrypted
  secret_decryption_error : String → Decrypted
  unicode_decode_error : Decrypted

-- `text + "=" * ((4 - len(text) % 4) % 4)`
unfoldable pub equals_signs : ℕ → String
equals_signs zero = ""
equals_signs (suc n) = "=" +s equals_signs n

unfoldable pub padded : String → String
unfolding equals_signs text_length
padded s = s +s equals_signs ((4 - text_length s % 4) % 4)

abbrev pub key_or_digest : Primitives → String → Option Bytes → Bytes
key_or_digest lib key_str none = lib.sha256 (lib.utf8 key_str)
key_or_digest lib key_str (some bytes) =
    if length bytes == 32 then bytes else lib.sha256 (lib.utf8 key_str)

-- The 32 bytes of a base64 key, and the digest of any other.
unfoldable pub derive_aes_key : Primitives → Settings → Option String → Bytes
unfolding padded strip
derive_aes_key lib s raw_key =
    let key_str = strip (or_default (non_blank raw_key) s.secret_encryption_key) in
    key_or_digest lib key_str (lib.urlsafe_b64decode (padded key_str))

unfoldable pub build_aad : Primitives → Option Uuid → Option String → Option Bytes
build_aad lib (some ws) (some name) = some (lib.utf8 (lib.text_of ws +s ":" +s name))
build_aad lib ws name = none

-- The nonce is 12 bytes of `os.urandom`.
unfoldable pub encrypt_secret :
    Primitives → Settings → Bytes → String → Option Uuid → Option String → Option String → String
unfolding derive_aes_key build_aad
encrypt_secret lib s nonce text ws name key =
    let ciphertext =
      lib.gcm_encrypt (derive_aes_key lib s key) nonce (lib.utf8 text) (build_aad lib ws name) in
    "v1:" +s lib.urlsafe_b64encode (nonce ++ ciphertext)

abbrev pub decoded_text : Option String → Decrypted
decoded_text none = unicode_decode_error
decoded_text (some s) = plaintext s

abbrev pub verified : Primitives → Option Bytes → Decrypted
verified lib none = secret_decryption_error "AES-256-GCM tag or AAD verification failed"
verified lib (some bytes) = decoded_text (lib.from_utf8 bytes)

unfoldable pub open_payload :
    Primitives → Settings → Option Uuid → Option String → Option String → Option Bytes → Decrypted
unfolding derive_aes_key build_aad
open_payload lib s ws name key none = secret_decryption_error "Invalid base64 secret payload"
open_payload lib s ws name key (some raw) =
    if ltb (length raw) (12 + 16)
    then secret_decryption_error "Encrypted secret payload is truncated"
    else verified lib (
        lib.gcm_decrypt (derive_aes_key lib s key) (take 12 raw) (drop 12 raw)
          (build_aad lib ws name))

unfoldable pub decrypt_secret :
    Primitives → Settings → String → Option Uuid → Option String → Option String → Decrypted
unfolding open_payload padded starts_with drop_text
decrypt_secret lib s token ws name key =
    if is_blank token || not (starts_with token "v1:")
    then secret_decryption_error "Unsupported or malformed encrypted secret format"
    else open_payload lib s ws name key (lib.urlsafe_b64decode (padded (drop_text 3 token)))
