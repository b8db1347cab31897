-- ===== src/Text.antt =====
-- Byte strings, with what the program uses of Go's package strings on ASCII text. Go folds case and
-- knows spaces outside ASCII too.
pub mod Laws
pub mod Numbers
pub mod Split
pub mod Order
use Prim.Native.String
use Prim.Native.Char
use basecheck_agent.Prelude.{
  ℕ, zero, suc, ◌+◌, ◌-◌, String, Bool, true, false, not, ◌&&◌, ◌||◌, Option, none, some, is_some,
  List, [], ◌∷◌, ◌++◌, map, length, leb, ◌==◌, if◌then◌else◌,
}

abbrev pub Text : Type 0
Text = List ℕ

-- The bytes of an ASCII string.
abbrev pub text : String → Text
text String.[] = []
text (String.◌∷◌ first rest) = let others = text rest in Prim.Native.Char.code first ∷ others

abbrev pub is_upper : ℕ → Bool
is_upper c = leb b'A' c && leb c b'Z'

abbrev pub is_lower : ℕ → Bool
is_lower c = leb b'a' c && leb c b'z'

abbrev pub is_digit : ℕ → Bool
is_digit c = leb b'0' c && leb c b'9'

-- The spaces of `strings.TrimSpace`.
abbrev pub is_space : ℕ → Bool
is_space c = c == b' ' || (leb 9 c && leb c 13)

abbrev pub lower_byte : ℕ → ℕ
lower_byte c = if is_upper c then c + 32 else c

-- `strings.ToLower`
abbrev pub lower : Text → Text
lower s = map lower_byte s

abbrev pub upper_byte : ℕ → ℕ
upper_byte c = if is_lower c then c - 32 else c

-- `strings.ToUpper`
abbrev pub upper : Text → Text
upper s = map upper_byte s

abbrev pub is_empty : Text → Bool
is_empty [] = true
is_empty (c ∷ cs) = false

unfoldable pub text_eq : Text → Text → Bool
text_eq [] [] = true
text_eq [] (d ∷ t) = false
text_eq (c ∷ s) [] = false
text_eq (c ∷ s) (d ∷ t) = c == d && text_eq s t

-- `strings.EqualFold`
abbrev pub equal_fold : Text → Text → Bool
equal_fold s t = text_eq (lower s) (lower t)

-- Go's `<` on strings.
unfoldable pub text_ltb : Text → Text → Bool
text_ltb s [] = false
text_ltb [] (d ∷ t) = true
text_ltb (c ∷ s) (d ∷ t) = let rest = text_ltb s t in if c == d then rest else not (leb d c)

-- What follows a prefix.
unfoldable pub drop_prefix : Text → Text → Option Text
drop_prefix [] s = some s
drop_prefix (p ∷ ps) [] = none
drop_prefix (p ∷ ps) (c ∷ s) = let rest = drop_prefix ps s in if p == c then rest else none

abbrev pub has_prefix : Text → Text → Bool
has_prefix s prefix = is_some (drop_prefix prefix s)

-- `strings.Contains`
unfoldable pub contains : Text → Text → Bool
contains [] sub = is_empty sub
contains (c ∷ s) sub = has_prefix (c ∷ s) sub || contains s sub

-- `strings.Index`; `none` is -1.
unfoldable pub index_of : Text → Text → Option ℕ
index_of [] sub = if is_empty sub then some 0 else none
index_of (c ∷ s) sub =
    let rest = index_of s sub in
    if has_prefix (c ∷ s) sub then some 0 else elim rest [ none ↦ none | some i ↦ some (suc i) ]

-- `s[n:]` and `s[:n]`
unfoldable pub drop : ℕ → Text → Text
drop zero s = s
drop (suc n) [] = []
drop (suc n) (c ∷ s) = drop n s

unfoldable pub take : ℕ → Text → Text
take zero s = []
take (suc n) [] = []
take (suc n) (c ∷ s) = c ∷ take n s

-- A byte in front of the first part.
abbrev pub onto_first : ℕ → List Text → List Text
onto_first c [] = (c ∷ []) ∷ []
onto_first c (part ∷ parts) = (c ∷ part) ∷ parts

-- `strings.Split` at a separator of one byte or more; `skip` bytes of a separator are left to pass.
unfoldable pub split_from : ℕ → Text → Text → List Text
split_from skip sep [] = [] ∷ []
split_from (suc skip) sep (c ∷ s) = split_from skip sep s
split_from zero sep (c ∷ s) =
    let behind = split_from (length sep - 1) sep s in
    let further = split_from zero sep s in
    if has_prefix (c ∷ s) sep then [] ∷ behind else onto_first c further

unfoldable pub split : Text → Text → List Text
split s sep = split_from zero sep s

unfoldable pub join : List Text → Text → Text
join [] sep = []
join (part ∷ []) sep = part
join (part ∷ (next ∷ parts)) sep = part ++ (sep ++ join (next ∷ parts) sep)

-- `strings.ReplaceAll` of a text of one byte or more.
unfoldable pub replace_all : Text → Text → Text → Text
replace_all s old new = join (split s old) new

unfoldable pub trim_left : (ℕ → Bool) → Text → Text
trim_left p [] = []
trim_left p (c ∷ s) = let rest = trim_left p s in if p c then rest else c ∷ s

unfoldable pub trim_right : (ℕ → Bool) → Text → Text
trim_right p [] = []
trim_right p (c ∷ s) = let rest = trim_right p s in if p c && is_empty rest then [] else c ∷ rest

-- `strings.Trim` of the bytes that meet a test.
abbrev pub trim : (ℕ → Bool) → Text → Text
trim p s = trim_right p (trim_left p s)

abbrev pub trim_space : Text → Text
trim_space s = trim is_space s
