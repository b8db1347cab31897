-- ===== src/Siem/Event.antt =====
-- The SIEM event of pkg/siem/event.go: its record, its defaults, its identity and its validation.
-- A time is the number of nanoseconds since Go's zero time, so `IsZero` tests for 0. The risk
-- score, a float that no operation reads, and the log context are left out of the record.
-- `OccurrenceCount` is kept as the 64-bit pattern of Go's `int`.
pub mod Identity
pub mod Validation
pub mod Laws
pub mod Fingerprint
use basecheck_agent.Prelude.{ℕ, String, Option, none, some}

abbrev pub Time : Type 0
Time = ℕ

abbrev pub event_version : String
event_version = "basecheck.siem.v1"

abbrev pub event_type_created : String
event_type_created = "created"

abbrev pub event_type_updated : String
event_type_updated = "updated"

abbrev pub event_type_recurring : String
event_type_recurring = "recurring"

abbrev pub event_type_remediated : String
event_type_remediated = "remediated"

abbrev pub event_type_regressed : String
event_type_regressed = "regressed"

abbrev pub finding_status_open : String
finding_status_open = "open"

abbrev pub finding_status_remediated : String
finding_status_remediated = "remediated"

abbrev pub finding_status_accepted : String
finding_status_accepted = "accepted"

abbrev pub finding_status_false_pos : String
finding_status_false_pos = "false_pos"

abbrev pub severity_critical : String
severity_critical = "CRITICAL"

abbrev pub severity_high : String
severity_high = "HIGH"

abbrev pub severity_medium : String
severity_medium = "MEDIUM"

abbrev pub severity_low : String
severity_low = "LOW"

abbrev pub severity_info : String
severity_info = "INFO"

-- The fields of the evidence that identify the object and describe the finding.
pub record EventEvidence : Type 0 where
  pub summary : String
  pub schema_name : String
  pub object_name : String
  pub role_name : String
  pub user_name : String
  pub attribute_name : String
  pub current_value : String
  pub expected_value : String
  pub reason : String
  pub fix : String

pub record EventExport : Type 0 where
  pub control_pack_name : String
  pub control_pack_version : String
  pub control_pack_signature : String
  pub agent_version : String
  pub mode : String
  pub destination : String
  pub delivery_id : String

pub record Event : Type 0 where
  pub version : String
  pub event_type : String
  pub event_time : Time
  pub organization_id : String
  pub agent_id : String
  pub system_id : String
  pub system_name : String
  pub database_engine : String
  pub environment : String
  pub finding_id : String
  pub fingerprint : String
  pub control_code : String
  pub control_name : String
  pub finding_title : String
  pub severity : String
  pub finding_status : String
  pub first_seen : Time
  pub last_seen : Time
  pub remediated_at : Option Time
  pub regressed_at : Option Time
  pub occurrence_count : ℕ
  pub source : String
  pub basecheck_url : String
  pub evidence : Option EventEvidence
  pub export : Option EventExport

-- The event with its defaults, at the current time.
unfoldable pub new_event : Time → Event
new_event now = record {
  version = event_version;
  event_type = "";
  event_time = now;
  organization_id = "";
  agent_id = "";
  system_id = "";
  system_name = "";
  database_engine = "";
  environment = "";
  finding_id = "";
  fingerprint = "";
  control_code = "";
  control_name = "";
  finding_title = "";
  severity = "";
  finding_status = finding_status_open;
  first_seen = now;
  last_seen = now;
  remediated_at = none;
  regressed_at = none;
  occurrence_count = 1;
  source = "control_audit";
  basecheck_url = "";
  evidence = none;
  export = none;
}
