-- ===== src/Base/Text/Split.antt =====
-- The functions of Go's packages strings and regexp that cut a text into parts.
pub mod Laws
use Prim.Native.Nat.{ℕ, compare, Ordering}
use Prim.Native.Char.{Char, code}
use Prim.Native.String.{String, ◌++◌}
use mathlib.Core.Path.{◌≡◌, refl}
use mathlib.Core.Bool.{Bool, true, false, ◌||◌, ◌&&◌}
use mathlib.Core.Option.{Option, none, some}
use mathlib.Core.List.{List, [], ◌∷◌}
use operations_calico_contai.Base.Tests.{if◌then◌else◌}
use operations_calico_contai.Base.Text.{is_space_code}

abbrev leb : ℕ → ℕ → Bool
leb m n = elim (compare m n) [ Ordering.gt ↦ false | _ ↦ true ]

abbrev pub between : ℕ → ℕ → Char → Bool
between low high c = leb low (code c) && leb (code c) high

-- "[A-Za-z]" and "\\w"
abbrev is_letter : Char → Bool
is_letter c = between 65 90 c || between 97 122 c

abbrev is_underscore : Char → Bool
is_underscore c = between 95 95 c

abbrev is_word : Char → Bool
is_word c = is_letter c || (between 48 57 c || is_underscore c)

-- The longest run of characters with the property, and the rest.
span : (Char → Bool) → String → String × String
span p String.[] = (String.[], String.[])
span p (String.◌∷◌ c s) =
    let (run, rest) = span p s in
    if p c then (String.◌∷◌ c run, rest) else (String.[], String.◌∷◌ c s)

-- "\_\w+\b" at the start of the text. The run of word characters is as long as it can be, so it
-- ends at the end of a word.
tail_of : Char → String → Option String
tail_of c String.[] = none
tail_of c (String.◌∷◌ d run) = some (String.◌∷◌ c (String.◌∷◌ d run))

match_tail : String → Option String
unfolding span tail_of
match_tail String.[] = none
match_tail (String.◌∷◌ c s) =
    let (run, rest) = span is_word s in if is_underscore c then tail_of c run else none

-- "[A-Za-z]+" and then the tail.
name_of : String → Option String → Option String
name_of String.[] tail = none
name_of (String.◌∷◌ c run) none = none
name_of (String.◌∷◌ c run) (some tail) = some (String.◌∷◌ c run ++ tail)

match_here : String → Option String
unfolding span match_tail name_of
match_here s = let (run, rest) = span is_letter s in name_of run (match_tail rest)

-- `FindString` of "[A-Za-z]+\\_\\w+\\b": the first match, if there is one.
unfoldable pub find_peer_name : String → Option String
unfolding match_here
find_peer_name String.[] = none
find_peer_name (String.◌∷◌ c s) =
    let later = find_peer_name s in
    elim (match_here (String.◌∷◌ c s)) [ some found ↦ some found | none ↦ later ]

unfoldable pub add_to_first : Char → List String → List String
add_to_first c [] = String.◌∷◌ c String.[] ∷ []
add_to_first c (word ∷ words) = String.◌∷◌ c word ∷ words

-- `strings.Split(s, sep)`, for a separator of one character.
unfoldable pub split_on : (Char → Bool) → String → List String
unfolding add_to_first
split_on p String.[] = "" ∷ []
split_on p (String.◌∷◌ c s) =
    let rest = split_on p s in if p c then "" ∷ rest else add_to_first c rest

drop_blank : List String → List String
drop_blank [] = []
drop_blank (String.[] ∷ words) = drop_blank words
drop_blank (String.◌∷◌ c word ∷ words) = String.◌∷◌ c word ∷ drop_blank words

-- The words between the characters with the property.
unfoldable pub words_by : (Char → Bool) → String → List String
unfolding split_on drop_blank
words_by p s = drop_blank (split_on p s)

-- `strings.Fields`
unfoldable pub fields : String → List String
unfolding split_on drop_blank
fields s = drop_blank (split_on (λ c. is_space_code (code c)) s)

-- `strings.Split(s, "\n")`
unfoldable pub split_lines : String → List String
unfolding split_on
split_lines s = split_on (between 10 10) s

-- `strings.Replace(s, "_", by, -1)`
unfoldable pub replace_underscores : String → String → String
replace_underscores String.[] by = String.[]
replace_underscores (String.◌∷◌ c s) by =
    let rest = replace_underscores s by in if is_underscore c then by ++ rest else String.◌∷◌ c rest

find_peer_name_test : find_peer_name "x Mesh_fd80_24e2__2 BGP" ≡ some "Mesh_fd80_24e2__2"
unfolding find_peer_name
find_peer_name_test = refl

fields_test : fields " a  b\tc\n" ≡ "a" ∷ "b" ∷ "c" ∷ []
unfolding fields
fields_test = refl

split_lines_test : split_lines "a\n\nb" ≡ "a" ∷ "" ∷ "b" ∷ []
unfolding split_lines
split_lines_test = refl

replace_underscores_test : replace_underscores "fd80_2__2" ":" ≡ "fd80:2::2"
unfolding replace_underscores
replace_underscores_test = refl

-- What stands before the first "=", and after it if there is one: `strings.SplitN(s, "=", 2)`.
unfoldable pub split_pair : String → String × Option String
split_pair String.[] = ("", none)
split_pair (String.◌∷◌ c s) =
    let (key, value) = split_pair s in
    if between 61 61 c then ("", some s) else (String.◌∷◌ c key, value)

-- `strings.Split(s, ",")`
unfoldable pub split_commas : String → List String
unfolding split_on
split_commas s = split_on (between 44 44) s

split_pair_test : split_pair "custom-columns=A,B=" ≡ ("custom-columns", some "A,B=")
unfolding split_pair
split_pair_test = refl
