-- ===== src/Control/Convert/Laws.antt =====
-- What the backend's answer loses on its way (pkg/controlset/fetcher.go).
use basecheck_agent.Prelude.{◌≡◌, refl, none, List, [], ◌∷◌, map, Bool-cases, inl, inr}
use basecheck_agent.Text.{Text, is_empty, trim_space, trim_left, trim_right}
use basecheck_agent.Control.{Row}
use basecheck_agent.Control.Compatibility.{Requirements, check_compatibility}
use basecheck_agent.Control.Condition.Leaf.{Floats}
use basecheck_agent.Control.Procedure as Procedure
use basecheck_agent.Control.Procedure.{pass, apply_procedure_rows, discovery}
use basecheck_agent.Control.Canonical.{ControlCriteria, ControlSet}
use basecheck_agent.Control.Convert.{
  BackendProcedure, BackendControlSetResponse, Decoders, unquoted, convert_criteria,
  convert_procedure, convert_backend_response,
}

-- What the check of the compatibility reads of a set.
abbrev pub requirements_of : ControlSet → Requirements
requirements_of set = record {
  agent_min_version = set.compatibility.agent_min_version;
  agent_max_version = set.compatibility.agent_max_version;
  database_versions = set.metadata.database_versions;
}

-- What the run of a procedure reads of a criterion.
abbrev pub executed : ControlCriteria → Procedure.ControlCriteria
executed c = record {
  condition = c.condition;
  severity = c.severity;
  finding_title = c.finding_title;
}

-- A control set from the backend is compatible with every agent and every database, whatever versions
-- it was made for: the answer has no place for them.
pub convert_backend_response-check_compatibility :
    (decoders : Decoders) (r : BackendControlSetResponse) (agent database : Text)
    → check_compatibility (requirements_of (convert_backend_response decoders r)) agent database
      ≡ none
unfolding convert_backend_response check_compatibility trim_left trim_right
convert_backend_response-check_compatibility decoders r agent database = refl

discovered :
    {F : Type 0} (control : Procedure.Control) (floats : Floats F) (rows : List Row)
    → (apply_procedure_rows control floats [] rows).status ≡ pass
unfolding apply_procedure_rows discovery
discovered control floats [] = refl
discovered control floats (row ∷ rows) = refl

unreadable :
    (decoders : Decoders) (raw : Text)
    → decoders.criteria (unquoted decoders (trim_space raw)) ≡ none
    → decoders.criterion (unquoted decoders (trim_space raw)) ≡ none
    → convert_criteria decoders raw ≡ []
unfolding convert_criteria
unreadable decoders raw many one = elim (Bool-cases (is_empty raw)) [
  | inl y ↦ rw y refl
  | inr n ↦ rw (n, many, one) refl
]

-- A procedure from the backend whose criteria decode neither as a list nor as a single criterion
-- passes, whatever rows its test returns.
pub convert_procedure_unreadable :
    {F : Type 0} (decoders : Decoders) (p : BackendProcedure) (control : Procedure.Control)
    (floats : Floats F) (rows : List Row)
    → decoders.criteria (unquoted decoders (trim_space p.criteria)) ≡ none
    → decoders.criterion (unquoted decoders (trim_space p.criteria)) ≡ none
    → (apply_procedure_rows control floats
        (map executed (convert_procedure decoders p).criteria)
        rows).status
      ≡ pass
unfolding convert_procedure
convert_procedure_unreadable decoders p control floats rows many one =
    let e : convert_criteria decoders p.criteria ≡ [] = unreadable decoders p.criteria many one in
    rw e (discovered control floats rows)
