-- ===== src/Control/Examples.antt =====
-- Controls on concrete rows.
mod Inputs
mod Fetching
mod Signing
mod Converting
use basecheck_agent.Prelude.{
  ℕ, ◌≡◌, refl, ltb, leb, Option, none, some, pos, negsuc, is_some, not, ◌||◌, any, map, true,
  false, List, [], ◌∷◌, ok,
}
use basecheck_agent.Text.{
  Text, text, text_eq, trim_right, trim_left, contains, drop_prefix, split, split_from,
}
use basecheck_agent.Text.Numbers.{atoi, integer_at, digits_from, scan_int}
use basecheck_agent.Control.{Row, Value, column, exact_column}
use basecheck_agent.Control.Condition.{
  validate_condition_syntax, validate_from, validate_trimmed, validate_parts, evaluate_condition,
  evaluate_from, evaluate_trimmed, evaluate_all,
}
use basecheck_agent.Control.Condition.Leaf.{
  Floats, evaluate_row_count_condition, validate_leaf, validate_operator, find_operator,
  evaluate_leaf, evaluate_simple, compare_values, validate_row_count_condition_syntax,
}
use basecheck_agent.Control.Condition.Leaf.Laws.{IsFueled, IsFueledResult, IsOk}
use basecheck_agent.Control.Condition.Laws.{IsOnColumns, evaluate_condition-IsOk}
use basecheck_agent.Control.Condition.Termination.{conditions_end}
use basecheck_agent.Control.Title.{details_of}
use basecheck_agent.Control.Title.Laws.{IsBounded, details_of-IsBounded}
use basecheck_agent.Control.Procedure.{
  ControlCriteria, ControlProcedure, Control, pass, is_error, lacks_query, mode_of, is_row_count,
  rejects_criteria, rejects_procedure, matched_finding, execute_procedure, apply_procedure_rows,
  execute_control,
}
use basecheck_agent.Control.Procedure.Laws.{last_status, matches_in, apply_procedure_rows-matches}
use basecheck_agent.Control.Procedure.Accepted.{
  IsSettled, apply_procedure_rows-IsSettled, execute_procedure_error,
}
use basecheck_agent.Control.Procedure.Outcome.{overall, results_of, execute_control-overall}

-- Natural numbers in place of floating-point ones.
abbrev naturals : Floats ℕ
naturals = record {
  parse = λ s. elim (atoi s) [ none ↦ none | some i ↦ elim i [ pos n ↦ some n | negsuc n ↦ none ] ];
  less = ltb;
  at_most = leb;
}

abbrev value : Text → Value
value s = record { printed = s; bytes = none }

abbrev superuser : Row
superuser = (text "rolname", value (text "bob")) ∷ (text "connections", value (text "12")) ∷ []

abbrev busy : Text
busy = text "rolname == 'bob' AND connections > 9"

abbrev two_bounds : Text
two_bounds = text "row_count > 0 AND row_count < 5"

abbrev busy_criteria : ControlCriteria
busy_criteria = record { condition = busy; severity = []; finding_title = text "{rolname} is busy" }

abbrev roles : ControlProcedure
roles = record {
  procedure_id = text "p1";
  execution_mode = [];
  tests = text "select rolname, connections from roles";
  criteria = busy_criteria ∷ [];
}

abbrev connections : Control
connections = record {
  control_id = text "c1";
  title = text "Busy roles";
  description = [];
  procedures = roles ∷ [];
  remediation = [];
}

abbrev one_row : Text → ControlProcedure → Option (List Row)
one_row mode p = some (superuser ∷ [])

busy_valid : validate_condition_syntax busy ≡ none
unfolding validate_condition_syntax validate_from validate_trimmed trim_right trim_left text_eq
    contains drop_prefix validate_parts split split_from validate_leaf validate_operator
    find_operator
busy_valid = refl

busy_matches : evaluate_condition naturals superuser busy ≡ ok true
unfolding evaluate_condition evaluate_from evaluate_trimmed evaluate_all trim_right trim_left
    text_eq contains drop_prefix split split_from evaluate_leaf find_operator evaluate_simple column
    exact_column compare_values atoi integer_at digits_from
busy_matches = refl

-- Ten rows are within the bounds of the first comparison, and the second is not read.
two_bounds_valid : validate_condition_syntax two_bounds ≡ none
unfolding validate_condition_syntax validate_from validate_trimmed trim_right trim_left text_eq
    contains drop_prefix validate_parts split split_from validate_leaf validate_operator
    find_operator validate_row_count_condition_syntax atoi integer_at digits_from
two_bounds_valid = refl

two_bounds_read_once : evaluate_row_count_condition two_bounds 10 ≡ true
unfolding evaluate_row_count_condition trim_right trim_left text_eq contains drop_prefix
    find_operator split split_from scan_int integer_at digits_from
two_bounds_read_once = refl

busy_columns : IsOnColumns busy
unfolding contains drop_prefix
busy_columns = refl

busy_not_counted : any is_row_count (busy_criteria ∷ []) ≡ false
unfolding contains drop_prefix
busy_not_counted = refl

busy_accepted : any rejects_criteria (busy_criteria ∷ []) ≡ false
unfolding validate_condition_syntax validate_from validate_trimmed trim_right trim_left text_eq
    contains drop_prefix validate_parts split split_from validate_leaf validate_operator
    find_operator rejects_criteria
busy_accepted = refl

roles_accepted : rejects_procedure roles ≡ false
unfolding validate_condition_syntax validate_from validate_trimmed trim_right trim_left text_eq
    contains drop_prefix validate_parts split split_from validate_leaf validate_operator
    find_operator rejects_criteria rejects_procedure
roles_accepted = refl

conditions_end_example :
    IsFueled (validate_condition_syntax busy)
    × IsFueledResult (evaluate_condition naturals superuser busy)
conditions_end_example = conditions_end naturals superuser busy

evaluate_condition-IsOk_example : IsOk (evaluate_condition naturals superuser busy)
evaluate_condition-IsOk_example =
    evaluate_condition-IsOk naturals superuser busy busy_columns busy_valid

apply_procedure_rows-matches_example :
    let result = apply_procedure_rows connections naturals (busy_criteria ∷ []) (superuser ∷ []) in
    let ms = matches_in naturals (busy_criteria ∷ []) (superuser ∷ []) in
    (result.status ≡ last_status pass ms)
    × (result.findings ≡ map (λ m. matched_finding connections m.0 m.1) ms)
apply_procedure_rows-matches_example =
    apply_procedure_rows-matches naturals connections busy_criteria [] (superuser ∷ [])
      busy_not_counted busy_accepted

execute_control-overall_example :
    (execute_control naturals one_row connections).status
    ≡ overall (results_of naturals one_row connections)
execute_control-overall_example = execute_control-overall naturals one_row connections
