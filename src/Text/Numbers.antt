-- ===== src/Text/Numbers.antt =====
-- Integers in decimal, as `strconv.Atoi` and `fmt.Sscanf` with `%d` read them: 64 bits and signed.
use basecheck_agent.Prelude.{
  true, false, ℕ, zero, suc, ◌/◌, ◌%◌, ◌+◌, ◌-◌, ◌*◌, ◌^◌, Bool, ℤ, pos, negsuc, Option, none, some,
  [], ◌∷◌, ltb, leb, ◌==◌, if◌then◌else◌,
}
use basecheck_agent.Text.{Text, is_digit}

-- The value of the digits at the start, behind those read so far, and what follows them.
unfoldable pub digits_from : ℕ → Text → ℕ × Text
digits_from value [] = (value, [])
digits_from value (c ∷ s) =
    let rest = digits_from (value * 10 + (c - b'0')) s in
    if is_digit c then rest else (value, c ∷ s)

-- Within the range of an `int64`.
abbrev pub signed_value : Bool → ℕ → Option ℤ
signed_value negative n =
    if negative
    then if n == 0 then some (pos 0) else if leb n (2 ^ 63) then some (negsuc (n - 1)) else none
    else if ltb n (2 ^ 63)
    then some (pos n)
    else none

-- One digit or more at the start of an unsigned text.
abbrev pub number_at : Bool → Text → Option (ℤ × Text)
number_at negative [] = none
number_at negative (c ∷ s) =
    let (n, rest) = digits_from 0 (c ∷ s) in
    if is_digit c
    then elim (signed_value negative n) [ none ↦ none | some i ↦ some (i, rest) ]
    else none

-- An integer with an optional sign at the start of a text.
unfoldable pub integer_at : Text → Option (ℤ × Text)
integer_at [] = none
integer_at (c ∷ s) =
    if c == b'-'
    then number_at true s
    else if c == b'+'
    then number_at false s
    else number_at false (c ∷ s)

-- `strconv.Atoi`; `none` is its error.
unfoldable pub atoi : Text → Option ℤ
atoi s = elim (integer_at s) [
  | none ↦ none
  | some (i, rest) ↦ elim rest [ [] ↦ some i | c ∷ more ↦ none ]
]

-- What `fmt.Sscanf(s, "%d", &n)` leaves in a zero `n`, for a trimmed text.
unfoldable pub scan_int : Text → ℤ
scan_int s = elim (integer_at s) [ none ↦ pos 0 | some (i, rest) ↦ i ]

-- The digits of a number before those that follow. A round writes one digit, and a number of 64
-- bits has fewer than 20.
unfoldable pub digits_before : ℕ → ℕ → Text → Text
digits_before zero n behind = behind
digits_before (suc rounds) n behind =
    let more = digits_before rounds (n / 10) ((b'0' + n % 10) ∷ behind) in
    if ltb n 10 then (b'0' + n) ∷ behind else more

-- What `fmt.Sprintf` prints of an integer with `%d`.
unfoldable pub print_int : ℤ → Text
print_int (pos n) = digits_before 20 n []
print_int (negsuc n) = b'-' ∷ digits_before 20 (suc n) []
