-- ===== src/Control/Convert.antt =====
-- The control set that comes of the backend's answer (convertBackendResponse of
-- pkg/controlset/fetcher.go). Raw JSON is a text, and its decoders are inputs.
pub mod Laws
use basecheck_agent.Prelude.{Option, none, some, List, [], ◌∷◌, map, ◌==◌, if◌then◌else◌}
use basecheck_agent.Text.{Text, is_empty, trim_space}
use basecheck_agent.Control.Canonical.{
  ControlCriteria, ControlProcedure, Remediation, Signature, Control, ControlSet,
}

pub record BackendSignature : Type 0 where
  pub algorithm : Text
  pub signature_b64 : Text

pub record BackendProcedure : Type 0 where
  pub procedure_id : Text
  pub system_type : Text
  pub execution_mode : Text
  pub tests : Text
  pub criteria : Text

pub record BackendControl : Type 0 where
  pub control_id : Text
  pub control_code : Text
  pub category : Text
  pub title : Text
  pub description : Text
  pub remediation : Text
  pub procedures : List BackendProcedure

pub record BackendControlSetResponse : Type 0 where
  pub control_set_id : Text
  pub control_set_version : Text
  pub database_type : Text
  pub control_set_type : Text
  pub tier : Text
  pub signature : Option BackendSignature
  pub controls : List BackendControl

-- `json.Unmarshal` into a string, a remediation, a list of criteria and a single one.
pub record Decoders : Type 0 where
  pub string : Text → Option Text
  pub remediation : Text → Option Remediation
  pub criteria : Text → Option (List ControlCriteria)
  pub criterion : Text → Option ControlCriteria

abbrev pub no_remediation : Remediation
no_remediation = record { summary = []; steps = []; remediation_sql = [] }

module _ (decoders : Decoders) where
  -- JSON within a JSON string is taken out of it.
  unfoldable pub unquoted : Text → Text
  unquoted [] = []
  unquoted (c ∷ s) = elim (decoders.string (c ∷ s)) [
    | none ↦ c ∷ s
    | some inner ↦ if c == b'"' then inner else c ∷ s
  ]

  unfoldable pub convert_remediation : Text → Remediation
  convert_remediation raw =
      if is_empty raw
      then no_remediation
      else elim (decoders.remediation (unquoted (trim_space raw))) [
        | none ↦ no_remediation
        | some remediation ↦ remediation
      ]

  -- A list, or a single criterion as of old; nothing if it is neither.
  unfoldable pub convert_criteria : Text → List ControlCriteria
  convert_criteria raw =
      if is_empty raw then [] else elim (decoders.criteria (unquoted (trim_space raw))) [
        | some criteria ↦ criteria
        | none ↦ elim (decoders.criterion (unquoted (trim_space raw))) [
          | some single ↦ single ∷ []
          | none ↦ []
        ]
      ]

  unfoldable pub convert_procedure : BackendProcedure → ControlProcedure
  convert_procedure p = record {
    procedure_id = p.procedure_id;
    system_type = p.system_type;
    system_applicability = [];
    execution_mode = p.execution_mode;
    tests = p.tests;
    criteria = convert_criteria p.criteria;
  }

  unfoldable pub convert_control : BackendControl → Control
  convert_control c = record {
    control_id = c.control_id;
    control_code = c.control_code;
    category = c.category;
    title = c.title;
    description = c.description;
    procedures = map convert_procedure c.procedures;
    remediation = convert_remediation c.remediation;
    evidence_capture = [];
  }

  -- `convertBackendResponse`
  unfoldable pub convert_backend_response : BackendControlSetResponse → ControlSet
  convert_backend_response r = record {
    metadata = record {
      control_set_id = r.control_set_id;
      control_set_version = r.control_set_version;
      database_type = r.database_type;
      control_set_type = r.control_set_type;
      database_versions = [];
      tier = r.tier;
      signature = elim r.signature [
        | none ↦ record { algorithm = []; public_key_id = []; signature_b64 = [] }
        | some s ↦ record {
          algorithm = s.algorithm;
          public_key_id = [];
          signature_b64 = s.signature_b64;
        }
      ];
    };
    compatibility = record {
      agent_min_version = [];
      agent_max_version = [];
      requires_privileges = [];
    };
    controls = map convert_control r.controls;
  }
