-- ===== src/Control/Condition/Leaf.antt =====
-- Conditions without OR and AND, and conditions on the number of rows (pkg/controlset/executor.go).
pub mod Laws
use basecheck_agent.Prelude.{
  ℕ, ◌+◌, Bool, true, false, not, ◌||◌, ℤ, pos, negsuc, Option, none, some, List, [], ◌∷◌, Result,
  ok, err, length, ltb, leb, ◌==◌, if◌then◌else◌,
}
use basecheck_agent.Text.{
  Text, text, text_eq, text_ltb, is_empty, lower, contains, index_of, take, drop, split, trim,
  trim_space,
}
use basecheck_agent.Text.Numbers.{atoi, scan_int}
use basecheck_agent.Control.{Row, Value, column}

-- The errors without their texts; the second is none of the source's.
pub data ConditionError : Type 0 where
  malformed : ConditionError
  out_of_fuel : ConditionError

pub record Floats (F : Type 0) : Type 0 where
  pub parse : Text → Option F
  pub less : F → F → Bool
  pub at_most : F → F → Bool

pub data Operator : Type 0 where
  is_equal : Operator
  is_not : Operator
  at_least : Operator
  not_more : Operator
  equals : Operator
  more : Operator
  fewer : Operator

abbrev pub spelling : Operator → Text
spelling is_equal = text "=="
spelling is_not = text "!="
spelling at_least = text ">="
spelling not_more = text "<="
spelling equals = text "="
spelling more = text ">"
spelling fewer = text "<"

-- The order in which a condition on a column is searched, and one on the number of rows.
abbrev pub operators : List Operator
operators = is_equal ∷ is_not ∷ at_least ∷ not_more ∷ equals ∷ more ∷ fewer ∷ []

abbrev pub row_count_operators : List Operator
row_count_operators = at_least ∷ not_more ∷ is_equal ∷ is_not ∷ equals ∷ more ∷ fewer ∷ []

unfoldable pub find_operator : List Operator → Text → Option Operator
find_operator [] condition = none
find_operator (op ∷ ops) condition =
    let rest = find_operator ops condition in
    if contains condition (spelling op) then some op else rest

-- `len(parts) == 2`
abbrev pub two_parts : List Text → Option (Text × Text)
two_parts [] = none
two_parts (a ∷ []) = none
two_parts (a ∷ (b ∷ [])) = some (a, b)
two_parts (a ∷ (b ∷ (c ∷ rest))) = none

-- `strings.Trim` of quotes, and of parentheses.
abbrev pub unquote : Text → Text
unquote s = trim (λ c. c == b'\'' || c == b'"') s

abbrev pub unparenthesize : Text → Text
unparenthesize s = trim (λ c. c == b'(' || c == b')') s

abbrev pub is_blank : Text → Bool
is_blank s = is_empty (trim_space s)

abbrev pub malformed_if : Bool → Option ConditionError
malformed_if true = some malformed
malformed_if false = none

unfoldable pub validate_in : Text → Option ConditionError
validate_in condition = elim (two_parts (split condition (text " IN "))) [
  | none ↦ some malformed
  | some (name, list) ↦ malformed_if (is_blank name || is_blank (unparenthesize (trim_space list)))
]

-- The place of " contains " in the lowered condition, if it is not the first.
abbrev pub contains_at : Text → Option ℕ
contains_at condition = elim (index_of (lower (trim_space condition)) (text " contains ")) [
  | none ↦ none
  | some i ↦ if ltb 0 i then some i else none
]

unfoldable pub validate_contains : Text → Option ConditionError
validate_contains condition = elim (contains_at condition) [
  | none ↦ some malformed
  | some i ↦ malformed_if (is_blank (drop (i + 10) condition))
]

unfoldable pub validate_operator : Text → Option ConditionError
validate_operator condition = elim (find_operator operators condition) [
  | none ↦ some malformed
  | some op ↦ elim (two_parts (split condition (spelling op))) [
    | none ↦ some malformed
    | some (name, value) ↦ malformed_if (is_blank name || is_blank value)
  ]
]

-- The last three forms of `validateConditionSyntax`.
unfoldable pub validate_leaf : Text → Option ConditionError
validate_leaf condition =
    if contains condition (text " IN ")
    then validate_in condition
    else if contains (lower (trim_space condition)) (text " contains ")
    then validate_contains condition
    else validate_operator condition

unfoldable pub validate_row_count_condition_syntax : Text → Option ConditionError
validate_row_count_condition_syntax raw =
    let condition = trim_space raw in
    elim (find_operator row_count_operators condition) [
      | none ↦ some malformed
      | some op ↦ elim (two_parts (split condition (spelling op))) [
        | none ↦ some malformed
        | some (name, number) ↦
            if not (text_eq (trim_space name) (text "row_count"))
            then some malformed
            else elim (atoi (trim_space number)) [ none ↦ some malformed | some n ↦ none ]
      ]
    ]

-- Whether one of the listed values is the actual one.
unfoldable pub is_among : Text → List Text → Bool
is_among actual [] = false
is_among actual (v ∷ vs) = text_eq actual (unquote (trim_space v)) || is_among actual vs

unfoldable pub evaluate_in : Row → Text → Result ConditionError Bool
evaluate_in row condition = elim (two_parts (split condition (text " IN "))) [
  | none ↦ err malformed
  | some (name, list) ↦ elim (column row (trim_space name)) [
    | none ↦ ok false
    | some v ↦ ok (is_among v.printed (split (unparenthesize (trim_space list)) (text ",")))
  ]
]

unfoldable pub evaluate_contains : Row → Text → Result ConditionError Bool
evaluate_contains row raw =
    let condition = trim_space raw in
    elim (contains_at raw) [
      | none ↦ err malformed
      | some i ↦ elim (column row (trim_space (take i condition))) [
        | none ↦ ok false
        | some v ↦
            ok (contains (lower v.printed) (lower (unquote (trim_space (drop (i + 10) condition)))))
      ]
    ]

module _ {F : Type 0} (floats : Floats F) where
  -- By number where both are numbers, else by the bytes.
  abbrev pub ordered : Text → Text → (F → F → Bool) → Bool → Bool
  ordered actual expected by_number by_text = elim (floats.parse actual) [
    | none ↦ by_text
    | some a ↦ elim (floats.parse expected) [ none ↦ by_text | some b ↦ by_number a b ]
  ]

  unfoldable pub compare_values : Operator → Text → Text → Bool
  compare_values is_equal actual expected = text_eq actual expected
  compare_values equals actual expected = text_eq actual expected
  compare_values is_not actual expected = not (text_eq actual expected)
  compare_values more actual expected =
      ordered actual expected (λ a b. floats.less b a) (text_ltb expected actual)
  compare_values fewer actual expected =
      ordered actual expected floats.less (text_ltb actual expected)
  compare_values at_least actual expected =
      ordered actual expected (λ a b. floats.at_most b a) (not (text_ltb actual expected))
  compare_values not_more actual expected =
      ordered actual expected floats.at_most (not (text_ltb expected actual))

  unfoldable pub evaluate_simple : Row → Operator → Text → Result ConditionError Bool
  evaluate_simple row op condition = elim (two_parts (split condition (spelling op))) [
    | none ↦ err malformed
    | some (name, value) ↦ elim (column row (trim_space name)) [
      | none ↦ ok false
      | some v ↦ ok (compare_values op v.printed (unquote (trim_space value)))
    ]
  ]

  -- The last three forms of `evaluateCondition`.
  unfoldable pub evaluate_leaf : Row → Text → Result ConditionError Bool
  evaluate_leaf row condition =
      if contains condition (text " IN ")
      then evaluate_in row condition
      else if contains (lower (trim_space condition)) (text " contains ")
      then evaluate_contains row condition
      else elim (find_operator operators condition) [
        | none ↦ err malformed
        | some op ↦ evaluate_simple row op condition
      ]

-- A number of rows against an integer.
abbrev pub compare_count : Operator → ℕ → ℤ → Bool
compare_count op n (pos m) = elim op [
  | is_equal ↦ n == m
  | equals ↦ n == m
  | is_not ↦ not (n == m)
  | more ↦ ltb m n
  | fewer ↦ ltb n m
  | at_least ↦ leb m n
  | not_more ↦ leb n m
]
compare_count op n (negsuc m) = elim op [
  | is_equal ↦ false
  | equals ↦ false
  | is_not ↦ true
  | more ↦ true
  | fewer ↦ false
  | at_least ↦ true
  | not_more ↦ false
]

unfoldable pub evaluate_row_count_condition : Text → ℕ → Bool
evaluate_row_count_condition raw row_count =
    let condition = trim_space raw in
    elim (find_operator row_count_operators condition) [
      | none ↦ false
      | some op ↦ elim (two_parts (split condition (spelling op))) [
        | none ↦ false
        | some (name, number) ↦
            if not (text_eq (trim_space name) (text "row_count"))
            then false
            else compare_count op row_count (scan_int (trim_space number))
      ]
    ]
