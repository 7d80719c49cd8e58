-- ===== src/Core/Telemetry/Exposition/Lines.antt =====
-- Lines of a text, and their joining.
use Prim.Native.Char.{Char, code}
use text.Mathlib.TextLemmas.{cons-append, nil-append}
use hamicloud.Prelude.Spliced.{any_char-append}
use hamicloud.Core.Telemetry.Exposition.{join_lines}
use hamicloud.Prelude.{
  refl, if◌then◌else◌, arith, [], ap, ◌∙◌, false, All, ◌∷◌, List, ◌==◌, ◌≡◌, ◌+s◌, any_char, String,
}

-- `text.split("\n")`
abbrev pub onto_first : Char → List String → List String
onto_first c [] = String.◌∷◌ c String.[] ∷ []
onto_first c (line ∷ lines) = String.◌∷◌ c line ∷ lines

unfoldable pub split_lines : String → List String
split_lines String.[] = String.[] ∷ []
split_lines (String.◌∷◌ c s) =
    let rest = split_lines s in if code c == 10 then String.[] ∷ rest else onto_first c rest

abbrev pub IsLine : String → Type 0
IsLine s = any_char (λ c. c == 10) s ≡ false

split_lines-line : (l : String) → IsLine l → split_lines l ≡ l ∷ []
unfolding split_lines any_char
split_lines-line String.[] h = refl
split_lines-line (String.◌∷◌ c l) h = ground (arith, split_lines-line l)

split_lines-newline : (t : String) → split_lines ("\n" +s t) ≡ String.[] ∷ split_lines t
unfolding split_lines
split_lines-newline t =
    ap split_lines (cons-append _ String.[] t) ∙ ap (λ u. String.[] ∷ split_lines u) (nil-append t)

split_lines-append : (l t : String) → IsLine l → split_lines (l +s "\n" +s t) ≡ l ∷ split_lines t
unfolding split_lines any_char
split_lines-append String.[] t h = ap split_lines (nil-append ("\n" +s t)) ∙ split_lines-newline t
split_lines-append (String.◌∷◌ c l) t h =
    ap split_lines (cons-append c l ("\n" +s t)) ∙ ground (arith, split_lines-append l t, h)

-- Lines that hold no line break are read back as they were joined.
pub split_lines-join_lines :
    (l : String) (ls : List String)
    → All IsLine (l ∷ ls)
    → split_lines (join_lines (l ∷ ls)) ≡ l ∷ ls
unfolding join_lines
split_lines-join_lines l [] (h, _) = split_lines-line l h
split_lines-join_lines l (next ∷ ls) (h, hs) =
    split_lines-append l (join_lines (next ∷ ls)) h
    ∙ ap (λ rest. l ∷ rest) (split_lines-join_lines next ls hs)

pub append-IsLine : (s t : String) → IsLine s → IsLine t → IsLine (s +s t)
append-IsLine s t h k = any_char-append (λ c. c == 10) s t ∙ ground (arith, h, k)
