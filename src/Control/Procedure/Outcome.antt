-- ===== src/Control/Procedure/Outcome.antt =====
-- The status of a control against those of its procedures (pkg/controlset/executor.go).
use basecheck_agent.Prelude.{
  ◌≡◌, refl, ◌∙◌, List-cases, inl, inr, Bool, false, ◌||◌, any, Option, List, [], ◌∷◌, map,
  if◌then◌else◌, arith,
}
use basecheck_agent.Text.{Text}
use basecheck_agent.Control.{Row}
use basecheck_agent.Control.Condition.Leaf.{Floats}
use basecheck_agent.Control.Procedure.{
  Status, pass, error, fail, ProcedureResult, ControlProcedure, Control, is_error, is_fail, is_pass,
  next_status, status_after, execute_procedure, execute_control,
}

-- The status of the first procedure that did not pass.
unfoldable pub first_open : List ProcedureResult → Status
first_open [] = pass
first_open (r ∷ rs) = if is_pass r.status then first_open rs else r.status

-- Any error outranks any failure, which outranks the first status that is not a pass.
unfoldable pub verdict : Status → Bool → Bool → Status → Status
verdict current errors fails first =
    if is_error current || errors
    then error
    else if is_fail current || fails
    then fail
    else if is_pass current
    then first
    else current

abbrev pub errs : List ProcedureResult → Bool
errs rs = any (λ r. is_error r.status) rs

abbrev pub fails : List ProcedureResult → Bool
fails rs = any (λ r. is_fail r.status) rs

next_status-verdict :
    (current status first : Status) (e f : Bool)
    → verdict (next_status current status) e f first
      ≡ verdict current
          (is_error status || e)
          (is_fail status || f)
          (if is_pass status then first else status)
unfolding verdict next_status
next_status-verdict current status first e f = ground arith

verdict_end : (current : Status) → current ≡ verdict current false false pass
unfolding verdict
verdict_end current = ground arith

status_after-verdict :
    (current : Status) (rs : List ProcedureResult)
    → status_after current rs ≡ verdict current (errs rs) (fails rs) (first_open rs)
unfolding status_after first_open
status_after-verdict current [] = verdict_end current
status_after-verdict current (r ∷ rs) =
    status_after-verdict (next_status current r.status) rs
    ∙ next_status-verdict current r.status (first_open rs) (errs rs) (fails rs)

-- The results of a control's procedures, in order.
abbrev pub results_of :
    {F : Type 0}
    → Floats F
    → (Text → ControlProcedure → Option (List Row))
    → Control
    → List ProcedureResult
results_of floats fetch control =
    map (λ p. execute_procedure control floats fetch p) control.procedures

-- What the results of a control's procedures amount to.
unfoldable pub overall : List ProcedureResult → Status
overall [] = error
overall (r ∷ rs) =
    if errs (r ∷ rs) then error else if fails (r ∷ rs) then fail else first_open (r ∷ rs)

status_after-overall :
    (r : ProcedureResult) (rs : List ProcedureResult)
    → status_after pass (r ∷ rs) ≡ overall (r ∷ rs)
unfolding overall verdict
status_after-overall r rs = status_after-verdict pass (r ∷ rs)

-- A control is an error if it has no procedures or if one of them is an error, else it fails if one
-- of them fails, and else it has the status of the first procedure that did not pass, and passes
-- if all did. So the order of the procedures cannot hide an error or a failure.
pub execute_control-overall :
    {F : Type 0} (floats : Floats F) (fetch : Text → ControlProcedure → Option (List Row))
    (control : Control)
    → (execute_control floats fetch control).status ≡ overall (results_of floats fetch control)
unfolding execute_control overall
execute_control-overall floats fetch control = elim (List-cases control.procedures) [
  | inl e ↦ rw (e, execute_control) refl
  | inr (p, ps, e) ↦
      simp (e, execute_control)
        (status_after-overall (execute_procedure control floats fetch p)
          (map (λ q. execute_procedure control floats fetch q) ps))
]
