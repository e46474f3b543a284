-- ===== src/Base/Text/Laws.antt =====
-- What the searches for a text find, and what splitting a text leaves.
use Prim.Native.Char.{Char}
use Prim.Native.String.{String, ◌++◌}
use mathlib.Core.Path.{◌≡◌, sym, ap, ◌∙◌}
use mathlib.Core.Logic.{◌↔◌, inl, inr}
use mathlib.Core.Bool.{true}
use mathlib.Core.Option.{some}
use native.Mathlib.Omega.{arith}
use text.Mathlib.TextEquality.{codes_equal}
use text.Mathlib.TextLemmas.{nil-append, cons-append}
use operations_calico_contai.Base.Tests.{Bool-cases, Option-cases}
use operations_calico_contai.Base.Text.{same_char, after_prefix, has_text}

same_char-eq : (c d : Char) → same_char c d ≡ true → c ≡ d
same_char-eq c d h = codes_equal c d (ground arith)

same_char_refl : (c : Char) → same_char c c ≡ true
same_char_refl c = ground arith

-- What follows a prefix is what is left of the text.
pub after_prefix-some : (p s : String) {r : String} → after_prefix p s ≡ some r → s ≡ p ++ r
unfolding after_prefix
after_prefix-some String.[] s {r} h = let same : s ≡ r = ground arith in same ∙ sym (nil-append r)
after_prefix-some (String.◌∷◌ c p) String.[] h = absurd (ground arith)
after_prefix-some (String.◌∷◌ c p) (String.◌∷◌ d s) {r} h = elim (Bool-cases (same_char c d)) [
  | inl same ↦
      let rest = after_prefix-some p s {r = r} (ground arith) in
      rw (same_char-eq c d same) (ap (λ t. String.◌∷◌ d t) rest ∙ sym (cons-append d p r))
  | inr other ↦ absurd (ground arith)
]

pub after_prefix-append : (p r : String) → after_prefix p (p ++ r) ≡ some r
unfolding after_prefix
after_prefix-append String.[] r = ap some (nil-append r)
after_prefix-append (String.◌∷◌ c p) r =
    rw (cons-append c p r) (rw (same_char_refl c, after_prefix) (after_prefix-append p r))

-- The text is a part of the other.
abbrev pub IsPart : String → String → Type 0
IsPart text s = (before : String) × (after : String) × (s ≡ before ++ (text ++ after))

IsPart-cons : (text s : String) (c : Char) → IsPart text s → IsPart text (String.◌∷◌ c s)
IsPart-cons text s c (before, after, same) = (
  String.◌∷◌ c before,
  after,
  ap (λ t. String.◌∷◌ c t) same ∙ sym (cons-append c before (text ++ after)),
)

IsPart-prefix : (text s : String) {r : String} → after_prefix text s ≡ some r → IsPart text s
IsPart-prefix text s {r} h = ("", r, after_prefix-some text s h ∙ sym (nil-append (text ++ r)))

has_text-IsPart : (text s : String) → has_text text s ≡ true → IsPart text s
unfolding has_text
has_text-IsPart text String.[] h = elim (Option-cases (after_prefix text String.[])) [
  | inl nothing ↦ absurd (ground arith)
  | inr (r, found) ↦ IsPart-prefix text String.[] found
]
has_text-IsPart text (String.◌∷◌ c s) h = elim (Option-cases (after_prefix text (String.◌∷◌ c s))) [
  | inl nothing ↦ IsPart-cons text s c (has_text-IsPart text s (ground arith))
  | inr (r, found) ↦ IsPart-prefix text (String.◌∷◌ c s) found
]

has_text-found :
    (text s : String) {r : String} → after_prefix text s ≡ some r → has_text text s ≡ true
unfolding has_text
has_text-found text String.[] h = rw (h, has_text)
has_text-found text (String.◌∷◌ c s) h = rw (h, has_text)

has_text-cons :
    (text s : String) (c : Char) → has_text text s ≡ true → has_text text (String.◌∷◌ c s) ≡ true
unfolding has_text
has_text-cons text s c h = elim (Option-cases (after_prefix text (String.◌∷◌ c s))) [
  | inl nothing ↦ rw (nothing, has_text) h
  | inr (r, found) ↦ rw (found, has_text)
]

has_text-append : (text before after : String) → has_text text (before ++ (text ++ after)) ≡ true
has_text-append text String.[] after =
    rw (nil-append (text ++ after))
      (has_text-found text (text ++ after) (after_prefix-append text after))
has_text-append text (String.◌∷◌ c before) after =
    rw (cons-append c before (text ++ after))
      (has_text-cons text (before ++ (text ++ after)) c (has_text-append text before after))

-- A text is found exactly if it is a part.
pub has_text_iff : (text s : String) → (has_text text s ≡ true) ↔ IsPart text s
has_text_iff text s =
    (has_text-IsPart text s, λ (before, after, same). rw same (has_text-append text before after))
