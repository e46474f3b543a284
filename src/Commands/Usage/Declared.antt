-- ===== src/Commands/Usage/Declared.antt =====
-- What a usage text declares, by the rules of its language that docopt documents: the lines below
-- "Options:" describe the options, and those below "Usage:" are patterns that the arguments match.
use Prim.Native.Char.{Char, code}
use operations_calico_contai.Base.{
  String, Bool, true, false, ◌||◌, not, none, some, List, [], ◌∷◌, ◌++◌, any, ◌==◌, if◌then◌else◌,
}
use operations_calico_contai.Base.Dict.{Dict}
use operations_calico_contai.Base.Text.{
  trim_left, trim_space, after_prefix, to_lower, has_text, has_suffix, is_space_code,
}
use operations_calico_contai.Base.Text.Split.{fields, words_by, between}

-- What the parsed map holds for a name: a flag, a text or nothing, a text in any case, or texts.
pub data Kind : Type 0 where
  switch optional defaulted repeated : Kind

abbrev is_blank : String → Bool
is_blank String.[] = true
is_blank (String.◌∷◌ c s) = false

unfoldable pub starts_with : String → String → Bool
unfolding after_prefix
starts_with prefix s = elim (after_prefix prefix s) [ some _ ↦ true | none ↦ false ]

until_blank : List String → List String
until_blank [] = []
until_blank (line ∷ lines) =
    let rest = until_blank lines in if is_blank line then [] else line ∷ rest

-- The lines below the title, down to a blank one.
unfoldable pub section : String → List String → List String
unfolding trim_space until_blank
section title [] = []
section title (line ∷ lines) =
    let rest = section title lines in if trim_space line == title then until_blank lines else rest

-- What stands before the description of an option, which two spaces separate.
option_head : String → String
unfolding starts_with
option_head String.[] = ""
option_head (String.◌∷◌ c s) =
    let rest = option_head s in if starts_with "  " (String.◌∷◌ c s) then "" else String.◌∷◌ c rest

-- The names of an option and the word for its value, which "=", a comma or a space separates.
unfoldable pub option_words : String → List String
unfolding option_head trim_left words_by
option_words line =
    words_by (λ c. is_space_code (code c) || (between 61 61 c || between 44 44 c))
      (option_head (trim_left line))

-- The long name.
unfoldable pub long_name : List String → String
unfolding starts_with
long_name [] = ""
long_name (word ∷ words) =
    let rest = long_name words in if starts_with "--" word then word else rest

-- An option takes a value if one of the words is no name of it.
unfoldable pub option_kind : List String → Bool → Kind
unfolding starts_with
option_kind words has_default =
    if any (λ word. not (starts_with "-" word)) words
    then if has_default then defaulted else optional
    else switch

-- The options, and whether a line above the first of them gives a default value.
unfoldable pub read_options : List String → Bool × Dict Kind
unfolding starts_with trim_left has_text to_lower option_words long_name option_kind
read_options [] = (false, [])
read_options (line ∷ lines) =
    let (below, options) = read_options lines in
    let has_default = has_text "[default:" (to_lower line) || below in
    if starts_with "-" (trim_left line)
    then (
      false,
      (long_name (option_words line), option_kind (option_words line) has_default) ∷ options,
    )
    else (has_default, options)

-- The brackets and bars of a pattern as words of their own.
space_out : String → String
unfolding starts_with
space_out String.[] = ""
space_out (String.◌∷◌ c s) =
    let rest = space_out s in
    if between 40 41 c || (between 91 91 c || (between 93 93 c || between 124 124 c))
    then String.◌∷◌ " " (String.◌∷◌ c (String.◌∷◌ " " rest))
    else String.◌∷◌ c rest

unfoldable pub pattern_words : List String → List String
unfolding fields space_out
pattern_words [] = []
pattern_words (line ∷ lines) = fields (space_out line) ++ pattern_words lines

-- The name of an element: an option's is before its value, and the dots of a repetition are no part.
until : (Char → Bool) → String → String
until p String.[] = ""
until p (String.◌∷◌ c s) = let rest = until p s in if p c then "" else String.◌∷◌ c rest

unfoldable pub element_name : String → String
unfolding until
element_name word = until (λ c. between 61 61 c || between 46 46 c) word

-- The arguments and the commands of the patterns. The options are described in their own section.
unfoldable pub read_elements : List String → Dict Kind
unfolding starts_with element_name has_suffix
read_elements [] = []
read_elements (word ∷ words) =
    let rest = read_elements words in
    if any (λ s. s == word)
        ("[" ∷ "]" ∷ "(" ∷ ")" ∷ "|" ∷ "[options]" ∷ "options" ∷ "calicoctl" ∷ [])
      || starts_with "-" word
    then rest
    else if starts_with "<" word
    then (element_name word, if has_suffix word "..." then repeated else optional) ∷ rest
    else (word, switch) ∷ rest

unfoldable pub declared : List String → Dict Kind
unfolding section read_options pattern_words read_elements
declared lines =
    let (_, options) = read_options (section "Options:" lines) in
    options ++ read_elements (pattern_words (section "Usage:" lines))
