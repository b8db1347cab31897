-- ===== src/Control/Procedure.antt =====
-- How a control's procedures run and what becomes of their rows (pkg/controlset/executor.go), and
-- the check of a control set at its loading (pkg/controlset/loader.go). How the rows are fetched,
-- by SQL, HTTP, active validation or a source scan, is an input; errors come without their texts.
pub mod Laws
pub mod Accepted
pub mod Outcome
use basecheck_agent.Prelude.{
  ℕ, Bool, true, false, not, ◌&&◌, ◌||◌, Option, none, some, List, [], ◌∷◌, ◌++◌, map, length,
  Result, ok, err, any, if◌then◌else◌,
}
use basecheck_agent.Text.{Text, text, text_eq, is_empty, contains, trim_space, lower}
use basecheck_agent.Control.{Row}
use basecheck_agent.Control.Title.{build_fallback_title, interpolate_title}
use basecheck_agent.Control.Condition.{
  normalized_condition, validate_condition_syntax, evaluate_condition,
}
use basecheck_agent.Control.Condition.Leaf.{ConditionError, Floats, evaluate_row_count_condition}

pub record ControlCriteria : Type 0 where
  pub condition : Text
  pub severity : Text
  pub finding_title : Text

pub record ControlProcedure : Type 0 where
  pub procedure_id : Text
  pub execution_mode : Text
  pub tests : Text
  pub criteria : List ControlCriteria

pub record Control : Type 0 where
  pub control_id : Text
  pub title : Text
  pub description : Text
  pub procedures : List ControlProcedure
  pub remediation : Text

pub record ControlSet : Type 0 where
  pub control_set_id : Text
  pub database_type : Text
  pub controls : List Control

-- The statuses of procedures and of controls, which are strings in the source.
pub data Status : Type 0 where
  pass : Status
  fail : Status
  review : Status
  license : Status
  info : Status
  error : Status

pub data FindingStatus : Type 0 where
  unset : FindingStatus
  new : FindingStatus
  review_required : FindingStatus
  license_required : FindingStatus
  informational : FindingStatus

pub data Evidence : Type 0 where
  all_rows : List Row → ℕ → Evidence
  all_rows_for : List Row → ℕ → Text → Evidence
  nested_row : Row → ℕ → Text → Evidence
  plain_row : Row → Evidence

pub record Finding : Type 0 where
  pub severity : Text
  pub status : FindingStatus
  pub title : Text
  pub description : Text
  pub evidence : Evidence
  pub remediation : Text

-- The id, the rows, the error's text and the time of the source's result are left out.
pub record ProcedureResult : Type 0 where
  pub status : Status
  pub findings : List Finding

unfoldable pub procedure_status : Text → Status
procedure_status condition =
    let n = normalized_condition condition in
    if text_eq n (text "review_required")
    then review
    else if text_eq n (text "license_required")
    then license
    else if text_eq n (text "informational")
    then info
    else fail

unfoldable pub finding_status : Text → FindingStatus
finding_status condition =
    let n = normalized_condition condition in
    if text_eq n (text "review_required")
    then review_required
    else if text_eq n (text "license_required")
    then license_required
    else if text_eq n (text "informational")
    then informational
    else new

abbrev pub severity_of : ControlCriteria → Text
severity_of criteria =
    let severity = trim_space criteria.severity in
    if is_empty severity then text "MEDIUM" else severity

abbrev pub is_row_count : ControlCriteria → Bool
is_row_count criteria = contains criteria.condition (text "row_count")

-- SQL is the mode of a procedure that names none, or one that is unknown.
abbrev pub mode_of : ControlProcedure → Text
mode_of p =
    let given = lower (trim_space p.execution_mode) in if is_empty given then text "sql" else given

abbrev pub is_other_mode : Text → Bool
is_other_mode mode =
    text_eq mode (text "http")
    || (text_eq mode (text "active_validation") || text_eq mode (text "source_scan"))

-- A procedure in SQL without a query.
abbrev pub lacks_query : ControlProcedure → Bool
lacks_query p = not (is_other_mode (mode_of p)) && is_empty (trim_space p.tests)

module _ (control : Control) where
  -- A finding of a failed condition on the number of rows, for one of the rows.
  unfoldable pub row_finding : ControlCriteria → ℕ → Row → Finding
  row_finding criteria count row =
      let title = trim_space criteria.finding_title in
      record {
        severity = severity_of criteria;
        status = unset;
        title =
            if is_empty title
            then build_fallback_title control.title row
            else interpolate_title title row;
        description = control.description;
        evidence = nested_row row count criteria.condition;
        remediation = control.remediation;
      }

  -- The findings of a failed condition on the number of rows.
  unfoldable pub row_count_findings : ControlCriteria → List Row → List Finding
  row_count_findings criteria [] =
      let title = trim_space criteria.finding_title in
      record {
        severity = severity_of criteria;
        status = unset;
        title = if is_empty title then control.title else title;
        description = control.description;
        evidence = all_rows_for [] 0 criteria.condition;
        remediation = control.remediation;
      }
      ∷ []
  row_count_findings criteria (row ∷ rows) =
      map (λ r. row_finding criteria (length (row ∷ rows)) r) (row ∷ rows)

  -- The loop over the criteria that are about the number of rows: whether all pass, and the findings.
  unfoldable pub apply_row_counts : List ControlCriteria → List Row → Bool × List Finding
  apply_row_counts [] rows = (true, [])
  apply_row_counts (criteria ∷ more) rows =
      let (passes, findings) = apply_row_counts more rows in
      if not (is_row_count criteria)
      then (passes, findings)
      else if evaluate_row_count_condition criteria.condition (length rows)
      then (passes, findings)
      else (false, row_count_findings criteria rows ++ findings)

  unfoldable pub matched_finding : ControlCriteria → Row → Finding
  matched_finding criteria row =
      let title = trim_space criteria.finding_title in
      record {
        severity = severity_of criteria;
        status = finding_status criteria.condition;
        title =
            interpolate_title
              (if is_empty title then build_fallback_title control.title row else title) row;
        description = control.description;
        evidence = plain_row row;
        remediation = control.remediation;
      }

  module _ {F : Type 0} (floats : Floats F) where
    -- The criteria on one row, in order; `err` carries the result with which both loops end.
    unfoldable pub apply_criteria :
        ProcedureResult → Row → List ControlCriteria → Result ProcedureResult ProcedureResult
    apply_criteria result row [] = ok result
    apply_criteria result row (criteria ∷ more) =
        elim (evaluate_condition floats row criteria.condition) [
          | err e ↦ err (record result { status = error })
          | ok matched ↦
              apply_criteria
                (if matched
                  then record {
                    status = procedure_status criteria.condition;
                    findings = result.findings ++ matched_finding criteria row ∷ [];
                  }
                  else result)
                row more
        ]

    unfoldable pub apply_rows : ProcedureResult → List ControlCriteria → List Row → ProcedureResult
    apply_rows result criteria [] = result
    apply_rows result criteria (row ∷ rows) = elim (apply_criteria result row criteria) [
      | err failed ↦ failed
      | ok next ↦ apply_rows next criteria rows
    ]

    -- Without criteria the rows are collected as data.
    unfoldable pub discovery : List Row → ProcedureResult
    discovery [] = record { status = pass; findings = [] }
    discovery (row ∷ rows) = record {
      status = pass;
      findings =
          record {
            severity = text "INFO";
            status = unset;
            title = control.title;
            description = control.description;
            evidence = all_rows (row ∷ rows) (length (row ∷ rows));
            remediation = [];
          }
          ∷ [];
    }

    unfoldable pub apply_procedure_rows : List ControlCriteria → List Row → ProcedureResult
    apply_procedure_rows [] rows = discovery rows
    apply_procedure_rows (c ∷ cs) rows =
        let (passes, findings) = apply_row_counts (c ∷ cs) rows in
        if any is_row_count (c ∷ cs)
        then record { status = if passes then pass else fail; findings = findings }
        else apply_rows (record { status = pass; findings = [] }) (c ∷ cs) rows

    -- `fetch` answers in the procedure's mode; `none` is an error of it.
    unfoldable pub execute_procedure :
        (Text → ControlProcedure → Option (List Row)) → ControlProcedure → ProcedureResult
    execute_procedure fetch p =
        let failed : ProcedureResult = record { status = error; findings = [] } in
        if lacks_query p then failed else elim (fetch (mode_of p) p) [
          | none ↦ failed
          | some rows ↦ apply_procedure_rows p.criteria rows
        ]

abbrev pub is_error : Status → Bool
is_error status = elim status [ error ↦ true | _ ↦ false ]

abbrev pub is_fail : Status → Bool
is_fail status = elim status [ fail ↦ true | _ ↦ false ]

abbrev pub is_pass : Status → Bool
is_pass status = elim status [ pass ↦ true | _ ↦ false ]

-- The status of a control after one more procedure.
unfoldable pub next_status : Status → Status → Status
next_status current procedure =
    if is_error procedure
    then error
    else if is_fail procedure && not (is_error current)
    then fail
    else if is_pass current
    then procedure
    else current

unfoldable pub status_after : Status → List ProcedureResult → Status
status_after current [] = current
status_after current (r ∷ rs) = status_after (next_status current r.status) rs

pub record ControlResult : Type 0 where
  pub status : Status
  pub procedures : List ProcedureResult

-- A control without procedures is an error. Capturing evidence changes none of this.
unfoldable pub execute_control :
    {F : Type 0}
    → Floats F
    → (Text → ControlProcedure → Option (List Row))
    → Control
    → ControlResult
execute_control floats fetch control = elim control.procedures [
  | [] ↦ record { status = error; procedures = [] }
  | p ∷ ps ↦
      let results = map (λ q. execute_procedure control floats fetch q) (p ∷ ps) in
      record { status = status_after pass results; procedures = results }
]

-- The checks of `validateControlSet`, true where one fails.
unfoldable pub rejects_criteria : ControlCriteria → Bool
rejects_criteria criteria = elim (validate_condition_syntax criteria.condition) [
  | none ↦ false
  | some e ↦ true
]

unfoldable pub rejects_procedure : ControlProcedure → Bool
rejects_procedure p =
    is_empty p.procedure_id || (is_empty p.tests || any rejects_criteria p.criteria)

abbrev pub has_no_procedures : Control → Bool
has_no_procedures control = elim control.procedures [ [] ↦ true | p ∷ ps ↦ false ]

unfoldable pub rejects_control : Control → Bool
rejects_control control =
    is_empty control.control_id
    || (has_no_procedures control || any rejects_procedure control.procedures)

abbrev pub has_no_controls : ControlSet → Bool
has_no_controls set = elim set.controls [ [] ↦ true | c ∷ cs ↦ false ]

-- Whether the set is refused.
unfoldable pub rejects_control_set : ControlSet → Bool
rejects_control_set set =
    is_empty set.control_set_id
    || (is_empty set.database_type || (has_no_controls set || any rejects_control set.controls))
