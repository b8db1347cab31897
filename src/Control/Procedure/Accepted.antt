-- ===== src/Control/Procedure/Accepted.antt =====
-- Procedures that the check of the control set accepts (pkg/controlset/executor.go).
use basecheck_agent.Prelude.{
  ◌≡◌, refl, subst, sym, ◌↔◌, Bool, Bool-cases, true, false, not, ◌||◌, Option, Option-cases,
  is_some, List, [], ◌∷◌, ◌++◌, length, any, inl, inr, if◌then◌else◌, arith,
}
use basecheck_agent.Text.{Text}
use basecheck_agent.Control.{Row}
use basecheck_agent.Control.Condition.Leaf.{Floats, evaluate_row_count_condition}
use basecheck_agent.Control.Procedure.{
  ControlCriteria, ControlProcedure, Control, Status, pass, fail, Finding, ProcedureResult,
  procedure_status, is_row_count, row_count_findings, apply_row_counts, apply_procedure_rows,
  execute_procedure, discovery, rejects_criteria, rejects_procedure, lacks_query, mode_of, is_pass,
  is_error,
}
use basecheck_agent.Control.Procedure.Laws.{
  Match, last_status, matches_in, findings_of, apply_procedure_rows-extended,
}

procedure_status_finds :
    (condition : Text)
    → (is_pass (procedure_status condition) ≡ false)
      × (is_error (procedure_status condition) ≡ false)
unfolding procedure_status
procedure_status_finds condition = ground arith

last_status_finds :
    (m : Match) (ms : List Match) (status : Status)
    → (is_pass (last_status status (m ∷ ms)) ≡ false)
      × (is_error (last_status status (m ∷ ms)) ≡ false)
unfolding last_status
last_status_finds m [] status = procedure_status_finds m.0.condition
last_status_finds m (n ∷ ms) status = last_status_finds n ms (procedure_status m.0.condition)

-- A status without an error, that is a pass exactly when nothing is found.
abbrev pub IsSettled : ProcedureResult → Type 0
IsSettled result =
    (is_error result.status ≡ false) × ((is_pass result.status ≡ true) ↔ (result.findings ≡ []))

matches-IsSettled :
    (control : Control) (ms : List Match)
    → IsSettled (record { status = last_status pass ms; findings = findings_of control ms })
unfolding last_status
matches-IsSettled control [] = (refl, ((λ _. refl), λ _. refl))
matches-IsSettled control (m ∷ ms) =
    let (p, e) = last_status_finds m ms pass in
    (e, ((λ h. absurd (ground (arith, h, p))), λ h. absurd (cc)))

row_count_findings_some :
    (control : Control) (c : ControlCriteria) (rows : List Row) (fs : List Finding)
    → ¬ (row_count_findings control c rows ++ fs ≡ [])
unfolding row_count_findings
row_count_findings_some control c [] fs h = absurd (cc)
row_count_findings_some control c (row ∷ rows) fs h = absurd (cc)

row_counts_settle :
    (control : Control) (cs : List ControlCriteria) (rows : List Row)
    → (let (passes, findings) = apply_row_counts control cs rows in
        (passes ≡ true) ↔ (findings ≡ []))
unfolding apply_row_counts row_count_findings
row_counts_settle control [] rows = ((λ _. refl), λ _. refl)
row_counts_settle control (c ∷ cs) rows =
    let rest = row_counts_settle control cs rows in
    elim (Bool-cases (is_row_count c)) [
      | inr n ↦ rw (n, apply_row_counts) rest
      | inl y ↦ elim (Bool-cases (evaluate_row_count_condition c.condition (length rows))) [
        | inl t ↦ rw (y, t, apply_row_counts) rest
        | inr f ↦
            rw (y, f, apply_row_counts)
              ((λ h. absurd (cc)), λ h. absurd (row_count_findings_some control c rows _ h))
      ]
    ]

verdict-IsSettled :
    (passes : Bool) (findings : List Finding)
    → (passes ≡ true) ↔ (findings ≡ [])
    → IsSettled (record { status = if passes then pass else fail; findings = findings })
verdict-IsSettled true findings h = (refl, h)
verdict-IsSettled false findings h = (refl, h)

-- Whatever the rows are, criteria that the check of the control set accepts leave no error, and a
-- procedure passes exactly when it has no finding.
pub apply_procedure_rows-IsSettled :
    {F : Type 0} (floats : Floats F) (control : Control) (c : ControlCriteria)
    (cs : List ControlCriteria) (rows : List Row)
    → any rejects_criteria (c ∷ cs) ≡ false
    → IsSettled (apply_procedure_rows control floats (c ∷ cs) rows)
unfolding apply_procedure_rows
apply_procedure_rows-IsSettled floats control c cs rows rj =
    elim (Bool-cases (any is_row_count (c ∷ cs))) [
      | inl y ↦
          rw (y, apply_procedure_rows)
            (verdict-IsSettled _ _ (row_counts_settle control (c ∷ cs) rows))
      | inr n ↦
          subst IsSettled (sym (apply_procedure_rows-extended floats control c cs rows n rj))
            (matches-IsSettled control (matches_in floats (c ∷ cs) rows))
    ]

procedure_rows_error :
    {F : Type 0} (floats : Floats F) (control : Control) (cs : List ControlCriteria)
    (rows : List Row)
    → any rejects_criteria cs ≡ false
    → is_error (apply_procedure_rows control floats cs rows).status ≡ false
unfolding apply_procedure_rows discovery
procedure_rows_error floats control [] [] rj = refl
procedure_rows_error floats control [] (row ∷ rows) rj = refl
procedure_rows_error floats control (c ∷ cs) rows rj =
    (apply_procedure_rows-IsSettled floats control c cs rows rj).0

-- A procedure that the check of the control set accepts is an error exactly if its rows are not
-- fetched: its query is blank in SQL, or fetching fails. Its criteria never make it one.
pub execute_procedure_error :
    {F : Type 0} (floats : Floats F) (control : Control)
    (fetch : Text → ControlProcedure → Option (List Row)) (p : ControlProcedure)
    → rejects_procedure p ≡ false
    → is_error (execute_procedure control floats fetch p).status
      ≡ (lacks_query p || not (is_some (fetch (mode_of p) p)))
unfolding execute_procedure rejects_procedure
execute_procedure_error floats control fetch p rj = elim (Bool-cases (lacks_query p)) [
  | inl y ↦ simp (y, execute_procedure)
  | inr n ↦ elim (Option-cases (fetch (mode_of p) p)) [
    | inl e ↦ simp (n, e, execute_procedure)
    | inr (rows, e) ↦ simp (
      n,
      e,
      execute_procedure,
      procedure_rows_error floats control p.criteria rows (ground (arith, rj)),
    )
  ]
]
