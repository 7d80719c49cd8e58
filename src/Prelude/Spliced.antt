-- ===== src/Prelude/Spliced.antt =====
-- Parts of texts that were put together, and texts with no space in them.
use Prim.Native.Nat.{ℕ, suc}
use Prim.Native.String.{String}
use mathlib.Core.Path.{◌≡◌, refl, sym, ap, ◌∙◌, subst}
use mathlib.Core.Bool.{Bool, true, false, ◌||◌}
use native.Mathlib.Omega.{arith}
use hamicloud.Prelude.Tests.{◌==◌}
use text.Mathlib.TextLemmas.{cons-append, nil-append}
use hamicloud.Prelude.Texts.{◌+s◌, is_space, lstrip, rstrip, strip, starts_with, take_text}
use hamicloud.Prelude.Pieces.{after_char, any_char, before_char, drop_text, text_length}

-- A text with no space in it is its own `strip`.
lstrip_lem : (s : String) → any_char is_space s ≡ false → lstrip s ≡ s
unfolding lstrip any_char
lstrip_lem String.[] h = refl
lstrip_lem (String.◌∷◌ c s) h = ground arith

rstrip_lem : (s : String) → any_char is_space s ≡ false → rstrip s ≡ s
unfolding rstrip any_char
rstrip_lem String.[] h = refl
rstrip_lem (String.◌∷◌ c s) h = ground (arith, rstrip_lem s)

pub strip_lem : (s : String) → any_char is_space s ≡ false → strip s ≡ s
unfolding strip
strip_lem s h = ap lstrip (rstrip_lem s h) ∙ lstrip_lem s h

pub starts_with-append : (p s : String) → starts_with (p +s s) p ≡ true
unfolding starts_with
starts_with-append String.[] s = refl
starts_with-append (String.◌∷◌ c p) s =
    subst (λ t. starts_with t (String.◌∷◌ c p) ≡ true) (sym (cons-append c p s))
      (ground (arith, starts_with-append p s))

pub drop_text-append : (p s : String) → drop_text (text_length p) (p +s s) ≡ s
unfolding drop_text text_length
drop_text-append String.[] s = nil-append s
drop_text-append (String.◌∷◌ c p) s =
    ap (drop_text (suc (text_length p))) (cons-append c p s) ∙ drop_text-append p s

pub take_text-append : (p s : String) → take_text (text_length p) (p +s s) ≡ p
unfolding take_text text_length
take_text-append String.[] s = refl
take_text-append (String.◌∷◌ c p) s =
    ap (take_text (suc (text_length p))) (cons-append c p s)
    ∙ ap (λ t. String.◌∷◌ c t) (take_text-append p s)

pub any_char-append :
    (p : ℕ → Bool) (s t : String) → any_char p (s +s t) ≡ (any_char p s || any_char p t)
unfolding any_char
any_char-append p String.[] t = ap (any_char p) (nil-append t)
any_char-append p (String.◌∷◌ c s) t =
    ap (any_char p) (cons-append c s t) ∙ ground (arith, any_char-append p s t)

-- A text before a separator that it does not hold.
pub before_char-append :
    (k : ℕ) (s t : String)
    → any_char (λ c. c == k) s ≡ false
    → before_char k t ≡ String.[]
    → before_char k (s +s t) ≡ s
unfolding before_char any_char
before_char-append k String.[] t h e = ap (before_char k) (nil-append t) ∙ e
before_char-append k (String.◌∷◌ c s) t h e =
    ap (before_char k) (cons-append c s t) ∙ ground (arith, before_char-append k s t, h, e)

pub after_char-append :
    (k : ℕ) (s t : String)
    → any_char (λ c. c == k) s ≡ false
    → after_char k (s +s t) ≡ after_char k t
unfolding after_char any_char
after_char-append k String.[] t h = ap (after_char k) (nil-append t)
after_char-append k (String.◌∷◌ c s) t h =
    ap (after_char k) (cons-append c s t) ∙ ground (arith, after_char-append k s t, h)
