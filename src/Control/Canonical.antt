-- ===== src/Control/Canonical.antt =====
-- The signed representation of a control set (canonicalControlSet of pkg/controlset/fetcher.go): what
-- is trimmed, what is sorted and what is left out. The fields of a set that no function here reads
-- are left out of the records.
pub mod Laws
pub mod Coverage
pub mod Verify
use basecheck_agent.Prelude.{
  Bool, true, false, ◌&&◌, not, Option, none, some, List, [], ◌∷◌, map, keep, if◌then◌else◌,
}
use basecheck_agent.Text.{Text, text, is_empty, trim_space}
use basecheck_agent.Text.Order.{sort_by}

pub record ControlCriteria : Type 0 where
  pub condition : Text
  pub severity : Text
  pub finding_title : Text
  pub compliance_framework : Text
  pub attribute_mapping : Bool

pub record ControlProcedure : Type 0 where
  pub procedure_id : Text
  pub system_type : Text
  pub system_applicability : Text
  pub execution_mode : Text
  pub tests : Text
  pub criteria : List ControlCriteria

pub record Remediation : Type 0 where
  pub summary : Text
  pub steps : List Text
  pub remediation_sql : Text

pub record Evidence : Type 0 where
  pub type : Text
  pub description : Text
  pub sql : Text
  pub source_mode : Text
  pub source_path : Text

pub record Control : Type 0 where
  pub control_id : Text
  pub control_code : Text
  pub category : Text
  pub title : Text
  pub description : Text
  pub procedures : List ControlProcedure
  pub remediation : Remediation
  pub evidence_capture : List Evidence

pub record Signature : Type 0 where
  pub algorithm : Text
  pub public_key_id : Text
  pub signature_b64 : Text

pub record Metadata : Type 0 where
  pub control_set_id : Text
  pub control_set_version : Text
  pub database_type : Text
  pub control_set_type : Text
  pub database_versions : List Text
  pub tier : Text
  pub signature : Signature

pub record Compatibility : Type 0 where
  pub agent_min_version : Text
  pub agent_max_version : Text
  pub requires_privileges : List Text

pub record ControlSet : Type 0 where
  pub metadata : Metadata
  pub compatibility : Compatibility
  pub controls : List Control

pub record CanonicalCompatibility : Type 0 where
  pub agent_min_version : Text
  pub agent_max_version : Text
  pub requires_privileges : List Text

pub record CanonicalProcedure : Type 0 where
  pub procedure_id : Text
  pub system_type : Text
  pub system_applicability : Text
  pub execution_mode : Text
  pub tests : Text
  pub criteria : List ControlCriteria

pub record CanonicalControl : Type 0 where
  pub control_id : Text
  pub control_code : Text
  pub category : Text
  pub title : Text
  pub description : Text
  pub remediation : Option Remediation
  pub procedures : List CanonicalProcedure
  pub evidence_capture : List Evidence

pub record CanonicalControlSet : Type 0 where
  pub control_set_id : Text
  pub control_set_version : Text
  pub database_type : Text
  pub control_set_type : Text
  pub tier : Text
  pub database_versions : List Text
  pub compatibility : CanonicalCompatibility
  pub controls : List CanonicalControl

-- A trimmed text, or its default where that is empty.
abbrev pub trimmed_or : Text → Text → Text
trimmed_or default value = if is_empty (trim_space value) then default else trim_space value

unfoldable pub default_execution_mode : Text → Text
default_execution_mode value = trimmed_or (text "sql") value

unfoldable pub default_control_set_type : Text → Text
default_control_set_type value = trimmed_or (text "Security") value

unfoldable pub is_zero_remediation : Remediation → Bool
is_zero_remediation remediation =
    is_empty (trim_space remediation.summary)
    && (elim remediation.steps [ [] ↦ true | step ∷ steps ↦ false ]
        && is_empty (trim_space remediation.remediation_sql))

abbrev pub canonical_criterion : ControlCriteria → ControlCriteria
canonical_criterion item = record {
  condition = trim_space item.condition;
  severity = trim_space item.severity;
  finding_title = trim_space item.finding_title;
  compliance_framework = trim_space item.compliance_framework;
  attribute_mapping = item.attribute_mapping;
}

-- The criteria keep their order.
unfoldable pub canonical_criteria : List ControlCriteria → List ControlCriteria
canonical_criteria criteria = map canonical_criterion criteria

abbrev pub canonical_procedure : ControlProcedure → CanonicalProcedure
canonical_procedure procedure = record {
  procedure_id = trim_space procedure.procedure_id;
  system_type = trim_space procedure.system_type;
  system_applicability = trim_space procedure.system_applicability;
  execution_mode = default_execution_mode procedure.execution_mode;
  tests = trim_space procedure.tests;
  criteria = canonical_criteria procedure.criteria;
}

-- The procedures are sorted by their trimmed IDs.
abbrev pub procedure_key : ControlProcedure → List Text
procedure_key procedure = trim_space procedure.procedure_id ∷ []

unfoldable pub canonical_procedures : List ControlProcedure → List CanonicalProcedure
canonical_procedures procedures = map canonical_procedure (sort_by procedure_key procedures)

abbrev pub canonical_evidence : Evidence → Evidence
canonical_evidence item = record {
  type = trim_space item.type;
  description = trim_space item.description;
  sql = trim_space item.sql;
  source_mode = trim_space item.source_mode;
  source_path = trim_space item.source_path;
}

-- The trimmed evidence is sorted by type, path and SQL.
abbrev pub evidence_key : Evidence → List Text
evidence_key item = item.type ∷ item.source_path ∷ item.sql ∷ []

unfoldable pub canonical_evidence_capture : List Evidence → List Evidence
canonical_evidence_capture evidence = sort_by evidence_key (map canonical_evidence evidence)

abbrev pub is_filled : Text → Bool
is_filled s = not (is_empty s)

abbrev pub text_key : Text → List Text
text_key s = s ∷ []

-- Trimmed, sorted, and without empty entries.
unfoldable pub canonical_string_list : List Text → List Text
canonical_string_list values = sort_by text_key (keep is_filled (map trim_space values))

-- The code of a control, or its ID where there is none.
abbrev pub canonical_id : Control → Text
canonical_id control = trimmed_or (trim_space control.control_id) control.control_code

abbrev pub canonical_remediation : Remediation → Option Remediation
canonical_remediation remediation =
    if is_zero_remediation remediation
    then none
    else some (record {
      summary = trim_space remediation.summary;
      steps = remediation.steps;
      remediation_sql = trim_space remediation.remediation_sql;
    })

unfoldable pub canonical_control : Control → CanonicalControl
canonical_control control = record {
  control_id = canonical_id control;
  control_code = canonical_id control;
  category = trim_space control.category;
  title = trim_space control.title;
  description = trim_space control.description;
  remediation = canonical_remediation control.remediation;
  procedures = canonical_procedures control.procedures;
  evidence_capture = canonical_evidence_capture control.evidence_capture;
}

-- The controls are sorted by code, and by ID under one code.
abbrev pub control_key : Control → List Text
control_key control = trim_space control.control_code ∷ trim_space control.control_id ∷ []

unfoldable pub canonical_controls : List Control → List CanonicalControl
canonical_controls controls = map canonical_control (sort_by control_key controls)

unfoldable pub canonical_compatibility : Compatibility → CanonicalCompatibility
canonical_compatibility compatibility = record {
  agent_min_version = trim_space compatibility.agent_min_version;
  agent_max_version = trim_space compatibility.agent_max_version;
  requires_privileges = canonical_string_list compatibility.requires_privileges;
}

unfoldable pub canonical_control_set : ControlSet → CanonicalControlSet
canonical_control_set set = record {
  control_set_id = trim_space set.metadata.control_set_id;
  control_set_version = trim_space set.metadata.control_set_version;
  database_type = trim_space set.metadata.database_type;
  control_set_type = default_control_set_type set.metadata.control_set_type;
  tier = trim_space set.metadata.tier;
  database_versions = canonical_string_list set.metadata.database_versions;
  compatibility = canonical_compatibility set.compatibility;
  controls = canonical_controls set.controls;
}
