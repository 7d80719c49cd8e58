-- ===== src/Core/Telemetry/Exposition/Scraped.antt =====
-- The Prometheus text of apps/api/app/core/telemetry.py, as a scraper reads it.
use hamicloud.Core.Telemetry.Exposition.Lines.{append-IsLine, IsLine}
use hamicloud.Core.Telemetry.Exposition.{gauge, series_lines, metric}
use hamicloud.Prelude.{
  arith, [], ◌∙◌, refl, ◌++◌, ap, none, if◌then◌else◌, ◌==◌, false, true, Bool, is_blank, ◌+s◌,
  any_char, some, All, ◌∷◌, ◌≡◌, String, before_char, List, Option, after_char,
}
use hamicloud.Prelude.Spliced.{before_char-append, after_char-append}
use text.Mathlib.TextLemmas.{cons-append, nil-append}
use Prim.Native.Char.{code}

-- A comment and an empty line have no series.
abbrev pub skipped : String → Bool
skipped String.[] = true
skipped (String.◌∷◌ c _) = code c == 35

abbrev value_of : Option String → String
value_of none = ""
value_of (some value) = value

-- The series of a text's lines: a name, and behind the first space its value.
unfoldable pub scraped : List String → List (String × String)
unfolding before_char after_char
scraped [] = []
scraped (line ∷ lines) =
    let rest = scraped lines in
    if skipped line then rest else (before_char 32 line, value_of (after_char 32 line)) ∷ rest

abbrev pub IsSeries : String → Type 0
IsSeries s = (any_char (λ c. c == 32) s ≡ false) × (skipped s ≡ false) × IsLine s

skipped-append : (s t : String) → is_blank s ≡ false → skipped (s +s t) ≡ skipped s
skipped-append String.[] t h = absurd (cc)
skipped-append (String.◌∷◌ c s) t h = ap skipped (cons-append c s t)

skipped-series : (s t : String) → skipped s ≡ false → skipped (s +s t) ≡ false
skipped-series String.[] t h = absurd (cc)
skipped-series (String.◌∷◌ c s) t h = ap skipped (cons-append c s t) ∙ h

spaced : (value : String) → before_char 32 (" " +s value) ≡ ""
unfolding before_char
spaced value = ap (before_char 32) (cons-append _ String.[] value)

behind_space : (value : String) → after_char 32 (" " +s value) ≡ some value
unfolding after_char
behind_space value = ap (after_char 32) (cons-append _ String.[] value) ∙ ap some (nil-append value)

scraped-comment :
    (a t : String) (lines : List String)
    → is_blank a ≡ false
    → skipped a ≡ true
    → scraped ((a +s t) ∷ lines) ≡ scraped lines
unfolding scraped
scraped-comment a t lines h k = ground (arith, skipped-append a t h, k)

scraped-series :
    (s value : String) (lines : List String)
    → IsSeries s
    → scraped ((s +s " " +s value) ∷ lines) ≡ (s, value) ∷ scraped lines
unfolding scraped
scraped-series s value lines (no_space, given, _) = rw (
  skipped-series s (" " +s value) given,
  before_char-append 32 s (" " +s value) no_space (spaced value),
  after_char-append 32 s (" " +s value) no_space,
  behind_space value,
)

-- The lines of a part of the text, and the series that they have.
abbrev pub Reads : List String → List (String × String) → Type 0
Reads lines series = All IsLine lines × (scraped lines ≡ series)

series-Reads :
    (series : List (String × String)) (lines : List String) (more : List (String × String))
    → All (λ x. IsSeries x.0 × IsLine x.1) series
    → Reads lines more
    → Reads (series_lines series ++ lines) (series ++ more)
unfolding series_lines any_char
series-Reads [] lines more h r = r
series-Reads ((s, value) ∷ series) lines more ((named, valued), h) r =
    let (plain, same) = series-Reads series lines more h r in
    (
      (append-IsLine s (" " +s value) named.2 (append-IsLine " " value refl valued), plain),
      scraped-series s value (series_lines series ++ lines) named ∙ ap (λ x. (s, value) ∷ x) same,
    )

said-IsLine :
    (prefix name t : String)
    → IsLine prefix
    → IsLine name
    → IsLine t
    → IsLine (prefix +s name +s " " +s t)
unfolding any_char
said-IsLine prefix name t p n h =
    append-IsLine prefix (name +s " " +s t) p
      (append-IsLine name (" " +s t) n (append-IsLine " " t refl h))

pub metric-Reads :
    (name kind about : String) (series : List (String × String)) (lines : List String)
    (more : List (String × String))
    → IsLine name
    → IsLine kind
    → IsLine about
    → All (λ x. IsSeries x.0 × IsLine x.1) series
    → Reads lines more
    → Reads (metric name kind about series lines) (series ++ more)
unfolding metric any_char
metric-Reads name kind about series lines more n k a h r =
    let (plain, same) = series-Reads series lines more h r in
    (
      (
        said-IsLine "# HELP " name about refl n a,
        (said-IsLine "# TYPE " name kind refl n k, plain),
      ),
      scraped-comment "# HELP " (name +s " " +s about) _ refl refl
          ∙ scraped-comment "# TYPE " (name +s " " +s kind) _ refl refl
          ∙ same,
    )

pub gauge-Reads :
    (name about value : String) (lines : List String) (more : List (String × String))
    → IsSeries name
    → IsLine about
    → IsLine value
    → Reads lines more
    → Reads (gauge name about value lines) ((name, value) ∷ more)
unfolding any_char
gauge-Reads name about value lines more n a v r =
    metric-Reads name "gauge" about ((name, value) ∷ []) lines more n.2 refl a ((n, v), tt) r
