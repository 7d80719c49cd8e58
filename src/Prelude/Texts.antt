-- ===== src/Prelude/Texts.antt =====
-- Texts: equality of whole texts, and Python's `str.strip` on code points.
use Prim.Native.Nat.{ℕ, zero, suc}
use Prim.Native.Char.{code}
use Prim.Native.String.{String, ◌++◌ as str_append}
use mathlib.Core.Bool.{Bool, true, false, ◌||◌, ◌&&◌}
use text.Mathlib.Text.{◌==◌ as text_eq}
use hamicloud.Prelude.Tests.{leb, ◌==◌, if◌then◌else◌}

infix 50 ◌=s=◌
abbrev pub ◌=s=◌ : String → String → Bool
a =s= b = text_eq a b

-- An f-string's concatenation.
infixr 65 ◌+s◌
abbrev pub ◌+s◌ : String → String → String
a +s b = str_append a b

-- `if not text`
abbrev pub is_blank : String → Bool
is_blank String.[] = true
is_blank (String.◌∷◌ _ _) = false

-- `str.isspace` of one character.
unfoldable pub is_space : ℕ → Bool
is_space c =
    (leb 9 c && leb c 13)
    || (leb 28 c && leb c 32)
    || c == 0x85
    || c == 0xa0
    || c == 0x1680
    || (leb 0x2000 c && leb c 0x200a)
    || c == 0x2028
    || c == 0x2029
    || c == 0x202f
    || c == 0x205f
    || c == 0x3000

unfoldable pub lstrip : String → String
unfolding is_space
lstrip String.[] = String.[]
lstrip (String.◌∷◌ c s) = let rest = lstrip s in if is_space (code c) then rest else String.◌∷◌ c s

-- A trailing space goes when all behind it has gone.
unfoldable pub rstrip : String → String
unfolding is_space
rstrip String.[] = String.[]
rstrip (String.◌∷◌ c s) =
    let rest = rstrip s in
    if is_blank rest && is_space (code c) then String.[] else String.◌∷◌ c rest

unfoldable pub strip : String → String
unfolding lstrip rstrip
strip s = lstrip (rstrip s)

-- `text.startswith(prefix)`
unfoldable pub starts_with : String → String → Bool
starts_with text String.[] = true
starts_with String.[] (String.◌∷◌ _ _) = false
starts_with (String.◌∷◌ c s) (String.◌∷◌ d p) =
    let rest = starts_with s p in if code c == code d then rest else false

-- `part in text`
unfoldable pub contains_text : String → String → Bool
unfolding starts_with
contains_text part String.[] = starts_with String.[] part
contains_text part (String.◌∷◌ c s) =
    let rest = contains_text part s in if starts_with (String.◌∷◌ c s) part then true else rest

-- `text[:n]`
unfoldable pub take_text : ℕ → String → String
take_text zero s = String.[]
take_text (suc n) String.[] = String.[]
take_text (suc n) (String.◌∷◌ c s) = String.◌∷◌ c (take_text n s)
