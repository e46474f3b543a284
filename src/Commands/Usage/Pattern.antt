-- ===== src/Commands/Usage/Pattern.antt =====
-- The patterns of a usage text, by the rules that docopt documents: what is in square brackets may be
-- left out, a bar separates alternatives, and each line that names the program is an alternative too.
use operations_calico_contai.Base.{
  String, ◌≢◌, ◌⊎◌, Bool, true, false, ◌||◌, Option, none, some, List, [], ◌∷◌, ◌==◌, if◌then◌else◌,
}
use operations_calico_contai.Args.{Args, nil}
use operations_calico_contai.Commands.Usage.Declared.{
  section, starts_with, pattern_words, element_name,
}

-- The options and arguments that a pattern asks for.
pub data Pattern : Type 0 where
  anything : Pattern
  element : String → Pattern
  both : Pattern → Pattern → Pattern
  either : Pattern → Pattern → Pattern

-- The arguments have what the pattern asks for.
abbrev pub Matches : Args → Pattern → Type 0
Matches args anything = Unit
Matches args (element name) = args name ≢ nil
Matches args (both p q) = Matches args p × Matches args q
Matches args (either p q) = Matches args p ⊎ Matches args q

-- A bracket that is open: the alternatives that its bars have ended, and the one being read.
record Frame : Type 0 where
  is_optional : Bool
  before : Option Pattern
  current : Pattern

open_frame : Bool → Frame
open_frame is_optional = record { is_optional = is_optional; before = none; current = anything }

alternatives : Option Pattern → Pattern → Pattern
alternatives none current = current
alternatives (some before) current = either before current

closed : Frame → Pattern
unfolding alternatives
closed f = if f.is_optional then anything else alternatives f.before f.current

add : Pattern → Frame → Frame
add anything f = f
add p f = record f { current = elim f.current [ anything ↦ p | current ↦ both current p ] }

close : Frame → List Frame → List Frame × Frame
unfolding closed add
close top [] = ([], top)
close top (f ∷ fs) = (fs, add (closed top) f)

read_word : String → List Frame × Frame → List Frame × Frame
unfolding open_frame closed add close starts_with element_name
read_word word (outer, top) =
    if word == "["
    then (top ∷ outer, open_frame true)
    else if word == "("
    then (top ∷ outer, open_frame false)
    else if (word == "]") || (word == ")")
    then close top outer
    else if (word == "|") || (word == "calicoctl")
    then (outer, record top { before = some (closed top); current = anything })
    else if starts_with "-" word || starts_with "<" word
    then (outer, add (element (element_name word)) top)
    else (outer, top)

read_words : List String → List Frame × Frame → List Frame × Frame
unfolding read_word
read_words [] state = state
read_words (word ∷ words) state = read_words words (read_word word state)

-- The name of the program starts the first pattern.
read_patterns : List String → Pattern
unfolding read_words open_frame closed
read_patterns [] = anything
read_patterns (_ ∷ words) = let (_, top) = read_words words ([], open_frame false) in closed top

unfoldable pub pattern_of : List String → Pattern
unfolding section pattern_words read_patterns
pattern_of lines = read_patterns (pattern_words (section "Usage:" lines))
