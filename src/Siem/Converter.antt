-- ===== src/Siem/Converter.antt =====
-- From results of controls to events (pkg/siem/converter.go), with the results' records of
-- pkg/controlset/types.go as far as they are read. `to_lower` is `strings.ToLower`; the other
-- parameters are those of the fingerprint.
pub mod Laws
use basecheck_agent.Prelude.{
  String, Bool, true, false, ◌||◌, Option, none, some, List, [], ◌∷◌, ◌++◌, map, str_eq,
  if◌then◌else◌, ℕ,
}
use basecheck_agent.Prelude.Dict.{Dict, lookup, insert}
use basecheck_agent.Siem.Event.{
  Time, Event, EventEvidence, event_version, event_type_created, finding_status_open,
  finding_status_remediated, severity_critical, severity_high, severity_medium, severity_low,
  severity_info,
}
use basecheck_agent.Siem.Event.Identity.{set_fingerprint}
use basecheck_agent.Siem.Context.{FindingContext}

-- A value of a row: a string, or anything else.
pub data Field : Type 0 where
  str : String → Field
  other : Field

-- A value of the evidence: a field, or a nested row.
pub data Value : Type 0 where
  field : Field → Value
  row : Dict Field → Value

-- A nil map reads like an empty one.
pub record Finding : Type 0 where
  pub severity : String
  pub title : String
  pub description : String
  pub evidence : Dict Value
  pub remediation : String

pub record ProcedureResult : Type 0 where
  pub status : String
  pub findings : List Finding

pub record ControlResult : Type 0 where
  pub control_code : String
  pub title : String
  pub status : String
  pub procedures : List ProcedureResult
  pub control_pack_name : String
  pub control_pack_version : String

abbrev pub is_actionable_status : String → Bool
is_actionable_status status =
    str_eq status "FAIL" || (str_eq status "REVIEW" || str_eq status "LICENSE")

unfoldable pub map_finding_status : String → String
map_finding_status status =
    if str_eq status "FAIL"
    then finding_status_open
    else if str_eq status "PASS"
    then finding_status_remediated
    else if str_eq status "REVIEW"
    then finding_status_open
    else if str_eq status "LICENSE"
    then finding_status_open
    else finding_status_open

unfoldable pub map_severity : String → String
map_severity severity =
    if str_eq severity "CRITICAL" || str_eq severity "critical"
    then severity_critical
    else if str_eq severity "HIGH" || str_eq severity "high"
    then severity_high
    else if str_eq severity "MEDIUM" || str_eq severity "medium"
    then severity_medium
    else if str_eq severity "LOW" || str_eq severity "low"
    then severity_low
    else severity_info

-- The nested row under "row".
unfoldable pub extract_nested_row_evidence : Dict Value → Option (Dict Field)
extract_nested_row_evidence ev = elim (lookup "row" ev) [
  | none ↦ none
  | some v ↦ elim v [ row r ↦ some r | field f ↦ none ]
]

abbrev pub field_of : Value → Field
field_of (field f) = f
field_of (row r) = other

-- The evidence itself, in which a nested row is no string.
unfoldable pub flat : Dict Value → Dict Field
flat [] = []
flat ((k, v) ∷ ev) = (k, field_of v) ∷ flat ev

abbrev pub source_of : Dict Value → Dict Field
source_of ev = elim (extract_nested_row_evidence ev) [ none ↦ flat ev | some r ↦ r ]

abbrev pub string_at : String → Dict Field → String
string_at key fields = elim (lookup key fields) [
  | none ↦ ""
  | some f ↦ elim f [ str s ↦ s | other ↦ "" ]
]

module _ (to_lower : String → String) where
  -- Of two keys that differ in case only, the later one wins here, and either one in Go.
  unfoldable pub normalize_evidence_keys : Dict Field → Dict Field → Dict Field
  normalize_evidence_keys normalized [] = normalized
  normalize_evidence_keys normalized ((k, v) ∷ source) =
      normalize_evidence_keys (insert (to_lower k) v normalized) source

  unfoldable pub evidence_from : String → String → Dict Field → EventEvidence
  evidence_from summary fix source =
      let s = normalize_evidence_keys [] source in
      record {
        summary = summary;
        schema_name = string_at "schema_name" s;
        object_name = string_at "object_name" s;
        role_name = string_at "role_name" s;
        user_name = string_at "user_name" s;
        attribute_name = string_at "attribute_name" s;
        current_value = string_at "current_value" s;
        expected_value = string_at "expected_value" s;
        reason = string_at "reason" s;
        fix = fix;
      }

  unfoldable pub build_evidence : Finding → EventEvidence
  build_evidence f = evidence_from f.description f.remediation (source_of f.evidence)

  abbrev pub first_of : String → String → String
  first_of own default = if str_eq own "" then default else own

  module _ (normalize : String → String) (bytes : String → List ℕ) (digest : List ℕ → String)
      (ctx : FindingContext) (now : Time) where
    unfoldable pub convert_finding : ControlResult → ProcedureResult → Finding → Event
    convert_finding result proc finding = set_fingerprint normalize bytes digest (record {
      version = event_version;
      event_type = event_type_created;
      event_time = now;
      organization_id = "";
      agent_id = ctx.agent_id;
      system_id = ctx.system_id;
      system_name = ctx.system_name;
      database_engine = ctx.database_engine;
      environment = ctx.environment;
      finding_id = "";
      fingerprint = "";
      control_code = result.control_code;
      control_name = result.title;
      finding_title = finding.title;
      severity = map_severity finding.severity;
      finding_status = map_finding_status proc.status;
      first_seen = now;
      last_seen = now;
      remediated_at = none;
      regressed_at = none;
      occurrence_count = 1;
      source = "control_audit";
      basecheck_url = "";
      evidence = some (build_evidence finding);
      export = some (record {
        control_pack_name = first_of result.control_pack_name ctx.control_pack_name;
        control_pack_version = first_of result.control_pack_version ctx.control_pack_version;
        control_pack_signature = "";
        agent_version = ctx.agent_version;
        mode = ctx.mode;
        destination = ctx.destination;
        delivery_id = "";
      });
    })

    unfoldable pub convert_procedures : ControlResult → List ProcedureResult → List Event
    convert_procedures result [] = []
    convert_procedures result (proc ∷ procs) =
        let rest = convert_procedures result procs in
        if is_actionable_status proc.status
        then map (λ finding. convert_finding result proc finding) proc.findings ++ rest
        else rest

    unfoldable pub convert_findings : List ControlResult → List Event
    convert_findings [] = []
    convert_findings (result ∷ results) =
        convert_procedures result result.procedures ++ convert_findings results
