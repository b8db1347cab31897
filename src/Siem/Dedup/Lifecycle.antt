-- ===== src/Siem/Dedup/Lifecycle.antt =====
-- `DetermineLifecycle` and `DetectRemediations` of pkg/siem/dedup.go. The sets of fingerprints and
-- of control codes are functions into Bool. The order of the remediation events is that of the
-- cache, where Go's is any order.
use Prim.Native.String
use basecheck_agent.Prelude.{
  ℕ, ◌+◌, ◌%◌, ◌^◌, String, Bool, false, not, Option, none, some, List, [], ◌∷◌, map, if◌then◌else◌,
  str_eq,
}
use basecheck_agent.Prelude.Dict.{lookup}
use basecheck_agent.Siem.Event.{
  Time, Event, event_version, event_type_created, event_type_recurring, event_type_remediated,
  event_type_regressed, finding_status_remediated, severity_info,
}
use basecheck_agent.Siem.Context.{FindingContext}
use basecheck_agent.Siem.Dedup.{DedupEntry, Cache, is_expired}

-- The event in its place in the lifecycle, by the entry of its fingerprint.
unfoldable pub lifecycle_over : Option DedupEntry → Event → Event
lifecycle_over none event = record event { event_type = event_type_created }
lifecycle_over (some entry) event =
    if str_eq entry.last_status finding_status_remediated
    then record event { event_type = event_type_regressed; regressed_at = some event.event_time }
    else record event {
      event_type = event_type_recurring;
      occurrence_count = (event.occurrence_count + 1) % 2 ^ 64;
    }

unfoldable pub determine_lifecycle : Cache → List Event → List Event
unfolding lifecycle_over
determine_lifecycle cache events =
    map (λ event. lifecycle_over (lookup event.fingerprint cache) event) events

abbrev pub or_default : String → String → String
or_default s d = if str_eq s "" then d else s

unfoldable pub remediation_event : Time → String → FindingContext → String → DedupEntry → Event
remediation_event now system_id ctx fp entry = record {
  version = event_version;
  event_type = event_type_remediated;
  event_time = now;
  organization_id = "";
  agent_id = ctx.agent_id;
  system_id = system_id;
  system_name = ctx.system_name;
  database_engine = ctx.database_engine;
  environment = ctx.environment;
  finding_id = String.◌++◌ "find-" fp;
  fingerprint = fp;
  control_code = entry.control_code;
  control_name = entry.control_name;
  finding_title = "Finding remediated";
  severity = severity_info;
  finding_status = finding_status_remediated;
  first_seen = entry.last_delivered;
  last_seen = now;
  remediated_at = some now;
  regressed_at = none;
  occurrence_count = 1;
  source = "control_audit";
  basecheck_url = "";
  evidence = none;
  export = some (record {
    control_pack_name = or_default entry.control_pack_name ctx.control_pack_name;
    control_pack_version = or_default entry.control_pack_version ctx.control_pack_version;
    control_pack_signature = "";
    agent_version = ctx.agent_version;
    mode = ctx.mode;
    destination = ctx.destination;
    delivery_id = "";
  });
}

module _ (now : Time) (window : ℕ) (system_id : String) (current executed : String → Bool)
    (ctx : FindingContext) where
  -- The `continue`s of the loop, then the test of the current fingerprints.
  unfoldable pub is_remediated : String → DedupEntry → Bool
  is_remediated fp entry =
      if not (str_eq entry.system_id system_id)
      then false
      else if str_eq entry.last_status finding_status_remediated
      then false
      else if is_expired now window entry
      then false
      else if not (executed entry.control_code)
      then false
      else not (current fp)

  unfoldable pub detect_remediations : Cache → List Event
  unfolding is_remediated
  detect_remediations [] = []
  detect_remediations ((fp, entry) ∷ cache) =
      let rest = detect_remediations cache in
      if is_remediated fp entry then remediation_event now system_id ctx fp entry ∷ rest else rest
