-- ===== src/Base/Text.antt =====
-- The functions of Go's packages strings and fmt that the program calls.
pub mod Split
pub mod Format
pub mod Laws
use Prim.Native.Nat.{ℕ, zero, suc, ◌+◌, ◌/◌, ◌%◌, ◌<◌, compare, Ordering}
use Prim.Native.Char.{Char, code}
use Prim.Native.String.{String, ◌++◌}
use mathlib.Core.Path.{◌≡◌, refl}
use mathlib.Core.Option.{Option, none, some}
use mathlib.Core.Bool.{Bool, true, false, ◌||◌}
use mathlib.Core.List.{List, [], ◌∷◌}
use mathlib.Core.Logic.{dite}
use mathlib.Core.WellFounded.{Acc}
use native.Mathlib.Omega.{arith}
use native.Mathlib.Decide.{dec_lt}
use text.Mathlib.Text.{◌==◌}
use operations_calico_contai.Base.Tests.{if◌then◌else◌}

abbrev pub same_char : Char → Char → Bool
same_char c d = elim (compare (code c) (code d)) [ Ordering.eq ↦ true | _ ↦ false ]

-- The letters whose lower case is in ASCII: those of ASCII, the dotted I and the Kelvin sign.
abbrev member : ℕ → List ℕ → Bool
member n [] = false
member n (m ∷ ms) = elim (compare n m) [ Ordering.eq ↦ true | _ ↦ member n ms ]

abbrev upper_letters : String
upper_letters = "ABCDEFGHIJKLMNOPQRSTUVWXYZİK"

abbrev lower_letters : String
lower_letters = "abcdefghijklmnopqrstuvwxyzik"

translate : String → String → Char → Char
translate (String.◌∷◌ u us) (String.◌∷◌ l ls) c = if same_char u c then l else translate us ls c
translate _ _ c = c

-- `strings.ToLower`. A letter whose lower case is outside ASCII stays as it is: the program compares
-- lower-cased texts with ASCII texts only, and those comparisons give the same answer.
unfoldable pub to_lower : String → String
unfolding translate
to_lower String.[] = String.[]
to_lower (String.◌∷◌ c s) = String.◌∷◌ (translate upper_letters lower_letters c) (to_lower s)

-- `strings.HasSuffix`
unfoldable pub has_suffix : String → String → Bool
has_suffix String.[] suffix = String.[] == suffix
has_suffix (String.◌∷◌ c s) suffix = (String.◌∷◌ c s == suffix) || has_suffix s suffix

-- `strings.Join`
unfoldable pub join : List String → String → String
join [] sep = ""
join (x ∷ []) sep = x
join (x ∷ y ∷ ys) sep = x ++ (sep ++ join (y ∷ ys) sep)

-- The white space of Unicode.
abbrev pub is_space_code : ℕ → Bool
is_space_code n = member n (
    9 ∷ 10 ∷ 11 ∷ 12 ∷ 13 ∷ 32 ∷ 133 ∷ 160 ∷ 5760 ∷ 8192 ∷ 8193 ∷ 8194 ∷ 8195 ∷ 8196 ∷ 8197 ∷ 8198
    ∷ 8199 ∷ 8200 ∷ 8201 ∷ 8202 ∷ 8232 ∷ 8233 ∷ 8239 ∷ 8287 ∷ 12288 ∷ [])

-- `strings.TrimLeft` of white space
unfoldable pub trim_left : String → String
trim_left String.[] = String.[]
trim_left (String.◌∷◌ c s) = if is_space_code (code c) then trim_left s else String.◌∷◌ c s

add_unless_blank : Char → String → String
add_unless_blank c String.[] = if is_space_code (code c) then String.[] else String.◌∷◌ c String.[]
add_unless_blank c s = String.◌∷◌ c s

trim_right : String → String
unfolding add_unless_blank
trim_right String.[] = String.[]
trim_right (String.◌∷◌ c s) = add_unless_blank c (trim_right s)

-- `strings.TrimSpace`
unfoldable pub trim_space : String → String
unfolding trim_left trim_right
trim_space s = trim_right (trim_left s)

-- `%-ns`
unfoldable pub pad_right : ℕ → String → String
pad_right zero s = s
pad_right (suc n) String.[] = " " ++ pad_right n String.[]
pad_right (suc n) (String.◌∷◌ c s) = String.◌∷◌ c (pad_right n s)

-- What follows the prefix.
unfoldable pub after_prefix : String → String → Option String
after_prefix String.[] s = some s
after_prefix (String.◌∷◌ c p) String.[] = none
after_prefix (String.◌∷◌ c p) (String.◌∷◌ d s) = if same_char c d then after_prefix p s else none

-- A regular expression that is a plain text.
unfoldable pub has_text : String → String → Bool
unfolding after_prefix
has_text text String.[] = elim (after_prefix text String.[]) [ some _ ↦ true | none ↦ false ]
has_text text (String.◌∷◌ c s) =
    let rest = has_text text s in
    elim (after_prefix text (String.◌∷◌ c s)) [ some _ ↦ true | none ↦ rest ]

-- The nth character of the text, as a text.
pick : ℕ → String → String
pick n String.[] = ""
pick zero (String.◌∷◌ c s) = String.◌∷◌ c String.[]
pick (suc n) (String.◌∷◌ c s) = pick n s

-- The digits from the last to the first, in front of those that have been written.
write_digits : ℕ → ℕ → String → String
unfolding pick
write_digits zero n written = written
write_digits (suc fuel) n written =
    let shown = pick (n % 10) "0123456789" ++ written in
    elim (n / 10) [ zero ↦ shown | suc m ↦ write_digits fuel (suc m) shown ]

-- `%d`. One more than the number is fuel enough for its digits.
unfoldable pub decimal : ℕ → String
unfolding write_digits
decimal n = write_digits (suc n) n ""

write_digits-next :
    (k k' n m : ℕ) (shown : String)
    → n / 10 ≡ m
    → n < suc k
    → n < suc k'
    → ((m : ℕ) → m < k → m < k' → write_digits k m shown ≡ write_digits k' m shown)
    → elim m [ zero ↦ shown | suc m ↦ write_digits k (suc m) shown ]
      ≡ elim m [ zero ↦ shown | suc m ↦ write_digits k' (suc m) shown ]
write_digits-next k k' n zero shown e h h' again = refl
write_digits-next k k' n (suc m) shown e h h' again = again (suc m) (omega arith) (omega arith)

-- With more fuel than the number the digits do not depend on the fuel.
write_digits-fuel :
    (k k' n : ℕ) (written : String)
    → n < k
    → n < k'
    → write_digits k n written ≡ write_digits k' n written
unfolding write_digits
write_digits-fuel zero k' n written h h' = absurd (omega arith)
write_digits-fuel (suc k) zero n written h h' = absurd (omega arith)
write_digits-fuel (suc k) (suc k') n written h h' =
    write_digits-next k k' n (n / 10) _ refl h h' (λ m hm hm'. write_digits-fuel k k' m _ hm hm')

decimal_test : decimal 1070 ≡ "1070"
unfolding decimal
decimal_test = refl

to_lower_test : to_lower "BGPPeers-İ9" ≡ "bgppeers-i9"
unfolding to_lower
to_lower_test = refl

has_suffix_test : has_suffix "nodeList" "List" ≡ true
unfolding has_suffix
has_suffix_test = refl

join_test : join ("a" ∷ "b" ∷ "c" ∷ []) ", " ≡ "a, b, c"
unfolding join
join_test = refl

trim_space_test : trim_space " 4.4.0-generic \n" ≡ "4.4.0-generic"
unfolding trim_space
trim_space_test = refl

pad_right_test : pad_right 4 "ab" ≡ "ab  "
unfolding pad_right
pad_right_test = refl

after_prefix_test : after_prefix "/x" "/xy" ≡ some "y"
unfolding after_prefix
after_prefix_test = refl
