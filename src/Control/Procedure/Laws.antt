-- ===== src/Control/Procedure/Laws.antt =====
-- What a procedure makes of its rows (pkg/controlset/executor.go), for the criteria that the check
-- of the control set lets through.
use basecheck_agent.Prelude.{
  ◌≡◌, refl, ap, ◌∙◌, sym, Bool, Bool-cases, true, false, Option-cases, Result, Result-cases, ok,
  err, List, [], ◌∷◌, ◌++◌, map, append-nil, append_assoc, any, All, inl, inr, if◌then◌else◌, arith,
  subst,
}
use mathlib.Core.List.{map-append}
use basecheck_agent.Control.{Row}
use basecheck_agent.Control.Condition.{validate_condition_syntax, evaluate_condition}
use basecheck_agent.Control.Condition.Laws.{evaluate_condition-IsOk}
use basecheck_agent.Control.Condition.Leaf.{ConditionError, Floats}
use basecheck_agent.Control.Condition.Leaf.Laws.{IsOk}
use basecheck_agent.Control.Procedure.{
  ControlCriteria, Control, Status, pass, Finding, ProcedureResult, procedure_status, is_row_count,
  matched_finding, apply_criteria, apply_rows, apply_procedure_rows, rejects_criteria,
}

-- A criterion and a row that it matches.
abbrev pub Match : Type 0
Match = ControlCriteria × Row

abbrev matched : Result ConditionError Bool → Bool
matched (ok b) = b
matched (err e) = false

-- The status of the last of the matches.
unfoldable pub last_status : Status → List Match → Status
last_status status [] = status
last_status status (m ∷ ms) = last_status (procedure_status m.0.condition) ms

last_status-append :
    (status : Status) (ms ns : List Match)
    → last_status status (ms ++ ns) ≡ last_status (last_status status ms) ns
unfolding last_status
last_status-append status [] ns = refl
last_status-append status (m ∷ ms) ns = last_status-append (procedure_status m.0.condition) ms ns

abbrev pub findings_of : Control → List Match → List Finding
findings_of control ms = map (λ m. matched_finding control m.0 m.1) ms

module _ {F : Type 0} (floats : Floats F) where
  -- The criteria that a row matches, in order, and those of all rows, row after row.
  unfoldable pub matches_on : Row → List ControlCriteria → List Match
  matches_on row [] = []
  matches_on row (c ∷ cs) =
      let rest = matches_on row cs in
      if matched (evaluate_condition floats row c.condition) then (c, row) ∷ rest else rest

  unfoldable pub matches_in : List ControlCriteria → List Row → List Match
  matches_in cs [] = []
  matches_in cs (row ∷ rows) = matches_on row cs ++ matches_in cs rows

  -- Criteria that evaluate on every row.
  abbrev Evaluable : ControlCriteria → Type 0
  Evaluable c = (row : Row) → IsOk (evaluate_condition floats row c.condition)

  criteria-Evaluable :
      (cs : List ControlCriteria)
      → any is_row_count cs ≡ false
      → any rejects_criteria cs ≡ false
      → All Evaluable cs
  unfolding rejects_criteria
  criteria-Evaluable [] rc rj = tt
  criteria-Evaluable (c ∷ cs) rc rj = elim (Bool-cases (is_row_count c)) [
    | inl y ↦ absurd (ground (arith, y, rc))
    | inr y ↦ elim (Option-cases (validate_condition_syntax c.condition)) [
      | inr (e, v) ↦ absurd (ground (arith, v, rj))
      | inl v ↦ (
        λ row. evaluate_condition-IsOk floats row c.condition y v,
        criteria-Evaluable cs (ground (arith, rc, y)) (ground (arith, rj, v)),
      )
    ]
  ]

  module _ (control : Control) where
    -- A result with the findings of more matches.
    abbrev extended : ProcedureResult → List Match → ProcedureResult
    extended result ms = record {
      status = last_status result.status ms;
      findings = result.findings ++ findings_of control ms;
    }

    extended_nil : (result : ProcedureResult) → extended result [] ≡ result
    unfolding last_status
    extended_nil result = ap (λ fs. record result { findings = fs }) (append-nil result.findings)

    extended-append :
        (result : ProcedureResult) (ms ns : List Match)
        → extended (extended result ms) ns ≡ extended result (ms ++ ns)
    extended-append result ms ns =
        rw
          (
            map-append (λ (m : Match). matched_finding control m.0 m.1) ms ns,
            last_status-append result.status ms ns,
          )
          (ap
            (λ fs. record { status = last_status (last_status result.status ms) ns; findings = fs })
            (append_assoc result.findings (findings_of control ms) (findings_of control ns)))

    apply_criteria-extended :
        (result : ProcedureResult) (row : Row) (cs : List ControlCriteria)
        → All Evaluable cs
        → apply_criteria control floats result row cs ≡ ok (extended result (matches_on row cs))
    unfolding apply_criteria matches_on last_status
    apply_criteria-extended result row [] h = ap ok (sym (extended_nil result))
    apply_criteria-extended result row (c ∷ cs) (here, h) =
        elim (Result-cases (evaluate_condition floats row c.condition)) [
          | inr (e, r) ↦ absurd (subst IsOk r (here row))
          | inl (true, r) ↦
              rw (r, apply_criteria, matches_on, matched)
                (apply_criteria-extended (extended result ((c, row) ∷ [])) row cs h
                  ∙ ap ok (extended-append result ((c, row) ∷ []) (matches_on row cs)))
          | inl (false, r) ↦
              rw (r, apply_criteria, matches_on, matched) (apply_criteria-extended result row cs h)
        ]

    apply_rows-extended :
        (result : ProcedureResult) (cs : List ControlCriteria) (rows : List Row)
        → All Evaluable cs
        → apply_rows control floats result cs rows ≡ extended result (matches_in cs rows)
    unfolding apply_rows matches_in
    apply_rows-extended result cs [] h = sym (extended_nil result)
    apply_rows-extended result cs (row ∷ rows) h =
        rw (apply_criteria-extended result row cs h, apply_rows)
          (apply_rows-extended (extended result (matches_on row cs)) cs rows h
            ∙ extended-append result (matches_on row cs) (matches_in cs rows))

    pub apply_procedure_rows-extended :
        (c : ControlCriteria) (cs : List ControlCriteria) (rows : List Row)
        → any is_row_count (c ∷ cs) ≡ false
        → any rejects_criteria (c ∷ cs) ≡ false
        → apply_procedure_rows control floats (c ∷ cs) rows ≡ record {
          status = last_status pass (matches_in (c ∷ cs) rows);
          findings = findings_of control (matches_in (c ∷ cs) rows);
        }
    unfolding apply_procedure_rows
    apply_procedure_rows-extended c cs rows rc rj = rw rc (
        apply_rows-extended (record { status = pass; findings = [] }) (c ∷ cs) rows
          (criteria-Evaluable (c ∷ cs) rc rj))

    -- Criteria that the check of the control set accepts, and that are not about the number of rows,
    -- leave one finding for each row and each criterion that the row matches, row after row and in the
    -- order of the criteria; the status is that of the last match, and a pass without matches.
    pub apply_procedure_rows-matches :
        (c : ControlCriteria) (cs : List ControlCriteria) (rows : List Row)
        → any is_row_count (c ∷ cs) ≡ false
        → any rejects_criteria (c ∷ cs) ≡ false
        → let result = apply_procedure_rows control floats (c ∷ cs) rows in
          (result.status ≡ last_status pass (matches_in (c ∷ cs) rows))
          × (result.findings
              ≡ map (λ m. matched_finding control m.0 m.1) (matches_in (c ∷ cs) rows))
    apply_procedure_rows-matches c cs rows rc rj =
        let e = apply_procedure_rows-extended c cs rows rc rj in
        (ap (λ r. r.status) e, ap (λ r. r.findings) e)
