-- ===== src/Prelude/Pieces.antt =====
-- Parts of texts: Python's `len`, `in`, `split` at a character and `replace` by nothing.
use Prim.Native.Nat.{ℕ, zero, suc, ◌-◌}
use Prim.Native.Char.{code}
use Prim.Native.String.{String}
use mathlib.Core.Bool.{Bool, true, false, ◌||◌}
use mathlib.Core.Option.{Option, none, some}
use hamicloud.Prelude.Tests.{◌==◌, if◌then◌else◌}
use hamicloud.Prelude.Texts.{starts_with}

unfoldable pub text_length : String → ℕ
text_length String.[] = 0
text_length (String.◌∷◌ c s) = suc (text_length s)

-- `any(p(c) for c in text)`, of code points.
unfoldable pub any_char : (ℕ → Bool) → String → Bool
any_char p String.[] = false
any_char p (String.◌∷◌ c s) = p (code c) || any_char p s

-- `text[n:]`
unfoldable pub drop_text : ℕ → String → String
drop_text zero s = s
drop_text (suc n) String.[] = String.[]
drop_text (suc n) (String.◌∷◌ c s) = drop_text n s

-- `text.split(c, 1)[0]`
unfoldable pub before_char : ℕ → String → String
before_char k String.[] = String.[]
before_char k (String.◌∷◌ c s) =
    let rest = before_char k s in if code c == k then String.[] else String.◌∷◌ c rest

-- `text.split(c, 1)[1]`, where the character is in the text.
unfoldable pub after_char : ℕ → String → Option String
after_char k String.[] = none
after_char k (String.◌∷◌ c s) = let rest = after_char k s in if code c == k then some s else rest

-- `text.replace(part, "")` from the left, after `skip` characters of an occurrence.
unfoldable pub remove_from : String → ℕ → String → String
unfolding text_length starts_with
remove_from part skip String.[] = String.[]
remove_from part (suc skip) (String.◌∷◌ c s) = remove_from part skip s
remove_from part zero (String.◌∷◌ c s) = elim (starts_with (String.◌∷◌ c s) part) [
  | true ↦ remove_from part (text_length part - 1) s
  | false ↦ String.◌∷◌ c (remove_from part 0 s)
]

unfoldable pub remove_all : String → String → String
unfolding remove_from
remove_all part s = remove_from part 0 s
