-- ===== src/Base/Text/Split/Laws.antt =====
-- Splitting a text at a character, and joining it again.
use Prim.Native.Char.{Char}
use Prim.Native.String.{String, ◌++◌}
use mathlib.Core.Path.{◌≡◌, refl, sym, ap, ◌∙◌}
use mathlib.Core.Logic.{inl, inr}
use mathlib.Core.Bool.{Bool, true, false}
use mathlib.Core.Option.{some}
use mathlib.Core.List.{List, [], ◌∷◌}
use native.Mathlib.Omega.{arith}
use text.Mathlib.TextEquality.{Char-path}
use text.Mathlib.TextLemmas.{nil-append, cons-append}
use operations_calico_contai.Base.Tests.{Bool-cases, All}
use operations_calico_contai.Base.Text.{join}
use operations_calico_contai.Base.Text.Split.{
  between, split_on, add_to_first, split_pair, split_commas,
}

-- No character of the text has the property.
abbrev pub Without : (Char → Bool) → String → Type 0
Without p String.[] = Unit
Without p (String.◌∷◌ c s) = (p c ≡ false) × Without p s

abbrev pub is_comma : Char → Bool
is_comma c = between 44 44 c

abbrev pub is_equals : Char → Bool
is_equals c = between 61 61 c

is_comma-eq : (c : Char) → is_comma c ≡ true → c ≡ ","
is_comma-eq c h = Char-path c "," (ground arith)

is_equals-eq : (c : Char) → is_equals c ≡ true → c ≡ "="
is_equals-eq c h = Char-path c "=" (ground arith)

module _ (p : Char → Bool) where
  split_on-cons :
      (s : String) → (word : String) × (words : List String) × (split_on p s ≡ word ∷ words)
  unfolding split_on
  split_on-cons String.[] = ("", [], refl)
  split_on-cons (String.◌∷◌ c s) =
      let (word, words, e) = split_on-cons s in
      elim (Bool-cases (p c)) [
        | inl at ↦ ("", split_on p s, rw (at, split_on) refl)
        | inr other ↦ (String.◌∷◌ c word, words, rw (other, split_on) (rw (e, add_to_first) refl))
      ]

  add_to_first-Without :
      (c : Char) (words : List String)
      → p c ≡ false
      → All (Without p) words
      → All (Without p) (add_to_first c words)
  unfolding add_to_first
  add_to_first-Without c [] h hs = ((h, tt), tt)
  add_to_first-Without c (word ∷ words) h (hw, hs) = ((h, hw), hs)

  pub split_on-Without : (s : String) → All (Without p) (split_on p s)
  unfolding split_on
  split_on-Without String.[] = (tt, tt)
  split_on-Without (String.◌∷◌ c s) = elim (Bool-cases (p c)) [
    | inl at ↦ rw (at, split_on) (tt, split_on-Without s)
    | inr other ↦
        rw (other, split_on) (add_to_first-Without c (split_on p s) other (split_on-Without s))
  ]

  -- A part without the character, and what follows the character.
  split_on-append :
      (word rest : String) (c : Char)
      → Without p word
      → p c ≡ true
      → split_on p (word ++ String.◌∷◌ c rest) ≡ word ∷ split_on p rest
  unfolding split_on
  split_on-append String.[] rest c h at =
      rw (nil-append (String.◌∷◌ c rest)) (rw (at, split_on) refl)
  split_on-append (String.◌∷◌ d word) rest c (h, hs) at =
      rw (cons-append d word (String.◌∷◌ c rest))
        (rw (h, split_on) (rw (split_on-append word rest c hs at, add_to_first) refl))

  split_on-single : (word : String) → Without p word → split_on p word ≡ word ∷ []
  unfolding split_on
  split_on-single String.[] h = refl
  split_on-single (String.◌∷◌ d word) (h, hs) =
      rw (h, split_on) (rw (split_on-single word hs, add_to_first) refl)

comma-append : (r : String) → "," ++ r ≡ String.◌∷◌ "," r
comma-append r = cons-append "," "" r ∙ ap (λ t. String.◌∷◌ "," t) (nil-append r)

equals-append : (r : String) → "=" ++ r ≡ String.◌∷◌ "=" r
equals-append r = cons-append "=" "" r ∙ ap (λ t. String.◌∷◌ "=" t) (nil-append r)

join-add_to_first :
    (c : Char) (word : String) (words : List String)
    → join (add_to_first c (word ∷ words)) "," ≡ String.◌∷◌ c (join (word ∷ words) ",")
unfolding join add_to_first
join-add_to_first c word [] = refl
join-add_to_first c word (next ∷ words) = cons-append c word ("," ++ join (next ∷ words) ",")

-- A text is its parts between the commas, joined by commas.
pub join-split_commas : (s : String) → join (split_commas s) "," ≡ s
unfolding split_commas split_on join
join-split_commas String.[] = refl
join-split_commas (String.◌∷◌ c s) =
    let (word, words, e) = split_on-cons is_comma s in
    let rest : join (word ∷ words) "," ≡ s = rw (sym e) (join-split_commas s) in
    elim (Bool-cases (is_comma c)) [
      | inl at ↦
          rw (at, split_on)
            (rw e (
              nil-append ("," ++ join (word ∷ words) ",")
              ∙ (comma-append (join (word ∷ words) ",")
                  ∙ (ap (λ t. String.◌∷◌ "," t) rest
                      ∙ ap (λ d. String.◌∷◌ d s) (sym (is_comma-eq c at))))))
      | inr other ↦
          rw (other, split_on)
            (rw e (join-add_to_first c word words ∙ ap (λ t. String.◌∷◌ c t) rest))
    ]

-- Parts without commas are what the text that joins them is split into.
pub split_commas-join :
    (word : String) (words : List String)
    → All (Without is_comma) (word ∷ words)
    → split_commas (join (word ∷ words) ",") ≡ word ∷ words
unfolding split_commas join
split_commas-join word [] (h, hs) = split_on-single is_comma word h
split_commas-join word (next ∷ words) (h, hs) = rw (comma-append (join (next ∷ words) ",")) (
    split_on-append is_comma word (join (next ∷ words) ",") "," h refl
    ∙ ap (λ l. word ∷ l) (split_commas-join next words hs))

-- What stands before the first "=" and after it.
pub split_pair-some :
    (s : String) {key value : String} → split_pair s ≡ (key, some value) → s ≡ key ++ ("=" ++ value)
unfolding split_pair
split_pair-some String.[] h = absurd (ground arith)
split_pair-some (String.◌∷◌ c s) {key} {value} h = elim (Bool-cases (is_equals c)) [
  | inl at ↦
      let no_key : key ≡ "" = ground arith in
      let all_value : value ≡ s = ground arith in
      rw (no_key, all_value)
        (ap (λ d. String.◌∷◌ d s) (is_equals-eq c at)
          ∙ (sym (equals-append s) ∙ sym (nil-append ("=" ++ s))))
  | inr other ↦
      let longer : key ≡ String.◌∷◌ c (split_pair s).0 = ground arith in
      let same_value : (split_pair s).1 ≡ some value = ground arith in
      let rest =
        split_pair-some s {key = (split_pair s).0} {value = value}
          (ap (λ o. ((split_pair s).0, o)) same_value) in
      rw longer
        (ap (λ t. String.◌∷◌ c t) rest ∙ sym (cons-append c (split_pair s).0 ("=" ++ value)))
]

pub split_pair-append :
    (key value : String)
    → Without is_equals key
    → split_pair (key ++ ("=" ++ value)) ≡ (key, some value)
unfolding split_pair
split_pair-append key value h = rw (equals-append value) (from_key key value h)
  where
    from_key :
        (key value : String)
        → Without is_equals key
        → split_pair (key ++ String.◌∷◌ "=" value) ≡ (key, some value)
    from_key String.[] value h = rw (nil-append (String.◌∷◌ "=" value)) refl
    from_key (String.◌∷◌ d key) value (h, hs) =
        rw (cons-append d key (String.◌∷◌ "=" value))
          (rw (from_key key value hs, split_pair) (rw (h, split_pair) refl))
