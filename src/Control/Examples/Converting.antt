-- ===== src/Control/Examples/Converting.antt =====
-- The theorems about the backend's control sets applied to a concrete answer.
use basecheck_agent.Prelude.{◌≡◌, refl, none, some, [], ◌∷◌}
use basecheck_agent.Text.{text}
use basecheck_agent.Control.Procedure as Procedure
use basecheck_agent.Control.Procedure.{pass, apply_procedure_rows}
use basecheck_agent.Control.Convert.{
  BackendProcedure, BackendControlSetResponse, Decoders, unquoted,
}

-- JSON that reads as nothing but a string in quotes.
abbrev decoders : Decoders
decoders = record {
  string = λ s. some (text "{");
  remediation = λ s. none;
  criteria = λ s. none;
  criterion = λ s. none;
}

abbrev procedure : BackendProcedure
procedure = record {
  procedure_id = text "p1";
  system_type = text "postgres";
  execution_mode = [];
  tests = text "select 1";
  criteria = text "[{]";
}

abbrev answer : BackendControlSetResponse
answer = record {
  control_set_id = text "s";
  control_set_version = text "1";
  database_type = text "postgres";
  control_set_type = [];
  tier = text "free";
  signature = none;
  controls =
      record {
        control_id = text "1";
        control_code = text "C1";
        category = [];
        title = text "T";
        description = [];
        remediation = [];
        procedures = procedure ∷ [];
      }
      ∷ [];
}

unquoted_test : unquoted decoders (b'"' ∷ text "x") ≡ text "{"
unfolding unquoted
unquoted_test = refl

abbrev control : Procedure.Control
control = record {
  control_id = text "1";
  title = text "T";
  description = [];
  procedures = [];
  remediation = [];
}
