-- ===== src/Control/Condition.antt =====
-- The conditions of control procedures (pkg/controlset/executor.go): the check of their syntax when
-- a control set is loaded, and their evaluation on a row. The recursion is on fuel, of which the
-- length of the condition and one is enough. `Floats` stands for `strconv.ParseFloat` and the order
-- of floating-point numbers.
pub mod Leaf
pub mod Laws
pub mod Termination
use basecheck_agent.Prelude.{
  ℕ, zero, suc, Bool, true, false, ◌||◌, Option, none, some, List, [], ◌∷◌, Result, ok, err, length,
  if◌then◌else◌,
}
use basecheck_agent.Text.{Text, text, text_eq, is_empty, lower, contains, split, trim_space}
use basecheck_agent.Control.{Row}
use basecheck_agent.Control.Condition.Leaf.{
  ConditionError, malformed, out_of_fuel, Floats, validate_leaf, evaluate_leaf,
  validate_row_count_condition_syntax,
}

abbrev pub normalized_condition : Text → Text
normalized_condition condition = lower (trim_space condition)

-- The three conditions that always match.
abbrev pub is_keyword : Text → Bool
is_keyword condition =
    let n = normalized_condition condition in
    text_eq n (text "review_required")
    || (text_eq n (text "license_required") || text_eq n (text "informational"))

-- The loop over the parts of a condition.
unfoldable pub validate_parts : (Text → Option ConditionError) → List Text → Option ConditionError
validate_parts check [] = none
validate_parts check (part ∷ parts) =
    let rest = validate_parts check parts in
    elim (check (trim_space part)) [ some e ↦ some e | none ↦ rest ]

unfoldable pub validate_trimmed : (Text → Option ConditionError) → Text → Option ConditionError
validate_trimmed check condition =
    if is_empty condition
    then some malformed
    else if is_keyword condition
    then none
    else if contains condition (text " OR ")
    then validate_parts check (split condition (text " OR "))
    else if contains condition (text " AND ")
    then validate_parts check (split condition (text " AND "))
    else if contains condition (text "row_count")
    then validate_row_count_condition_syntax condition
    else validate_leaf condition

unfoldable pub validate_from : ℕ → Text → Option ConditionError
validate_from zero condition = some out_of_fuel
validate_from (suc fuel) condition = validate_trimmed (validate_from fuel) (trim_space condition)

unfoldable pub validate_condition_syntax : Text → Option ConditionError
validate_condition_syntax condition = validate_from (suc (length condition)) condition

-- The loop over the parts of an OR, and over those of an AND.
unfoldable pub evaluate_any :
    (Text → Result ConditionError Bool) → List Text → Result ConditionError Bool
evaluate_any evaluate [] = ok false
evaluate_any evaluate (part ∷ parts) =
    let rest = evaluate_any evaluate parts in
    elim (evaluate (trim_space part)) [
      | err e ↦ err e
      | ok matched ↦ if matched then ok true else rest
    ]

unfoldable pub evaluate_all :
    (Text → Result ConditionError Bool) → List Text → Result ConditionError Bool
evaluate_all evaluate [] = ok true
evaluate_all evaluate (part ∷ parts) =
    let rest = evaluate_all evaluate parts in
    elim (evaluate (trim_space part)) [
      | err e ↦ err e
      | ok matched ↦ if matched then rest else ok false
    ]

module _ {F : Type 0} (floats : Floats F) (row : Row) where
  unfoldable pub evaluate_trimmed :
      (Text → Result ConditionError Bool) → Text → Result ConditionError Bool
  evaluate_trimmed evaluate condition =
      if is_keyword condition
      then ok true
      else if contains condition (text " OR ")
      then evaluate_any evaluate (split condition (text " OR "))
      else if contains condition (text " AND ")
      then evaluate_all evaluate (split condition (text " AND "))
      else evaluate_leaf floats row condition

  unfoldable pub evaluate_from : ℕ → Text → Result ConditionError Bool
  evaluate_from zero condition = err out_of_fuel
  evaluate_from (suc fuel) condition = evaluate_trimmed (evaluate_from fuel) (trim_space condition)

  unfoldable pub evaluate_condition : Text → Result ConditionError Bool
  evaluate_condition condition = evaluate_from (suc (length condition)) condition
