-- ===== src/Logs/Oracle/Patterns.antt =====
-- The regular expressions of the alert log's parser (pkg/logs/oracle/parser.go), as matchers.
use basecheck_agent.Prelude.{
  ℕ, zero, suc, Bool, true, false, ◌||◌, ◌==◌, Option, none, some, [], ◌∷◌, ◌++◌, is_some,
  if◌then◌else◌,
}
use basecheck_agent.Text.{Text, text, drop_prefix, is_upper, is_lower, is_digit, is_empty}

-- `\s`, which has no vertical tab.
abbrev pub is_white : ℕ → Bool
is_white c = c == b' ' || (c == 9 || (c == 10 || (c == 12 || c == 13)))

-- One byte of a class, and what follows it.
abbrev pub one : (ℕ → Bool) → Text → Option Text
one p [] = none
one p (c ∷ s) = if p c then some s else none

-- As many of a class as there are.
unfoldable pub skip : (ℕ → Bool) → Text → Text
skip p [] = []
skip p (c ∷ s) = let rest = skip p s in if p c then rest else c ∷ s

-- `\s+`, in front of something else than white space.
abbrev pub whites : Text → Option Text
whites s = elim (one is_white s) [ none ↦ none | some rest ↦ some (skip is_white rest) ]

abbrev pub then_match : Option Text → (Text → Option Text) → Option Text
then_match none m = none
then_match (some s) m = m s

abbrev pub digits : ℕ → Text → Option Text
digits zero s = some s
digits (suc n) s = then_match (one is_digit s) (digits n)

-- `[A-Z][a-z]{2}`
abbrev pub abbreviation : Text → Option Text
abbreviation s = then_match (one is_upper s) (λ r. then_match (one is_lower r) (one is_lower))

-- `\d{1,2}`, in front of something else than a digit.
abbrev pub day : Text → Option Text
day s = then_match (one is_digit s) (λ r. elim (one is_digit r) [ none ↦ some r | some q ↦ some q ])

abbrev pub colon : Text → Option Text
colon s = one (λ c. c == b':') s

-- `\d{2}:\d{2}:\d{2}`
abbrev pub clock : Text → Option Text
clock s = then_match (digits 2 s) (λ a.
    then_match (colon a) (λ b. then_match (digits 2 b) (λ c. then_match (colon c) (digits 2))))

abbrev pub is_end : Option Text → Bool
is_end none = false
is_end (some s) = is_empty s

-- `timestampPattern`
unfoldable pub matches_timestamp : Text → Bool
matches_timestamp s = is_end (
    then_match (abbreviation s) (λ a. then_match (whites a) (λ b. then_match (abbreviation b) (λ c.
      then_match (whites c) (λ d. then_match (day d) (λ e.
        then_match (whites e)
          (λ f. then_match (clock f) (λ g. then_match (whites g) (digits 4)))))))))

-- The digits at the start, up to a number of them.
unfoldable pub digits_upto : ℕ → Text → Text
digits_upto zero s = []
digits_upto (suc n) [] = []
digits_upto (suc n) (c ∷ s) = let rest = digits_upto n s in if is_digit c then c ∷ rest else []

-- `\d{4,5}` behind a prefix.
abbrev pub numbered : Text → Text → Option Text
numbered prefix s = elim (drop_prefix prefix s) [
  | none ↦ none
  | some rest ↦ if is_some (digits 4 rest) then some (prefix ++ digits_upto 5 rest) else none
]

-- `codePattern` at one place.
unfoldable pub code_at : Text → Option Text
code_at s = elim (numbered (text "ORA-") s) [
  | some code ↦ some code
  | none ↦ numbered (text "TNS-") s
]

-- Its first match, empty if there is none.
unfoldable pub first_code : Text → Text
first_code [] = []
first_code (c ∷ s) =
    let rest = first_code s in elim (code_at (c ∷ s)) [ some code ↦ code | none ↦ rest ]

-- `spacePattern.ReplaceAllString(s, " ")`; the flag is set behind white space.
unfoldable pub squeeze : Bool → Text → Text
squeeze behind [] = []
squeeze behind (c ∷ s) =
    let white = squeeze true s in
    let other = squeeze false s in
    if is_white c then (if behind then white else b' ' ∷ white) else c ∷ other
