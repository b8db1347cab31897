-- ===== src/Siem/Event/Validation.antt =====
-- `Event.Validate` of pkg/siem/event.go. It gathers one message for each fault; here the list of
-- the faults is the result, and the empty list is the nil error.
use basecheck_agent.Prelude.{
  String, Bool, true, false, ◌||◌, Option, none, some, List, [], ◌∷◌, ◌++◌, if◌then◌else◌, str_eq,
  ◌==◌,
}
use basecheck_agent.Siem.Event.{
  Event, EventExport, event_version, event_type_created, event_type_updated, event_type_recurring,
  event_type_remediated, event_type_regressed, finding_status_open, finding_status_remediated,
  finding_status_accepted, finding_status_false_pos, severity_critical, severity_high,
  severity_medium, severity_low, severity_info,
}

abbrev pub is_valid_event_type : String → Bool
is_valid_event_type t =
    str_eq t event_type_created
    || (str_eq t event_type_updated
        || (str_eq t event_type_recurring
            || (str_eq t event_type_remediated || str_eq t event_type_regressed)))

-- `to_upper` is `strings.ToUpper`.
abbrev pub is_valid_severity : (String → String) → String → Bool
is_valid_severity to_upper s =
    let u = to_upper s in
    str_eq u severity_critical
    || (str_eq u severity_high
        || (str_eq u severity_medium || (str_eq u severity_low || str_eq u severity_info)))

abbrev pub is_valid_finding_status : String → Bool
is_valid_finding_status s =
    str_eq s finding_status_open
    || (str_eq s finding_status_remediated
        || (str_eq s finding_status_accepted || str_eq s finding_status_false_pos))

abbrev pub fault_if : Bool → String → List String
fault_if true message = message ∷ []
fault_if false message = []

-- `if field == "" { required } else if !valid(field) { invalid }`
abbrev pub enum_faults : String → Bool → String → String → List String
enum_faults field valid required invalid =
    if str_eq field "" then required ∷ [] else if valid then [] else invalid ∷ []

unfoldable pub export_faults : Option EventExport → List String
export_faults none = "export is required" ∷ []
export_faults (some x) =
    fault_if (str_eq x.control_pack_name "") "export.control_pack_name is required"
    ++ (fault_if (str_eq x.control_pack_version "") "export.control_pack_version is required"
        ++ (fault_if (str_eq x.agent_version "") "export.agent_version is required"
            ++ (fault_if (str_eq x.mode "") "export.mode is required"
                ++ (fault_if (str_eq x.destination "") "export.destination is required"
                    ++ fault_if (str_eq x.delivery_id "") "export.delivery_id is required"))))

unfoldable pub validate : (String → String) → Event → List String
unfolding export_faults
validate to_upper e =
    (if str_eq e.version event_version then [] else "version must be basecheck.siem.v1" ∷ [])
    ++ (enum_faults e.event_type (is_valid_event_type e.event_type) "event_type is required"
          "invalid event_type"
        ++ (fault_if (e.event_time == 0) "event_time is required"
            ++ (fault_if (str_eq e.agent_id "") "agent_id is required"
                ++ (fault_if (str_eq e.system_id "") "system_id is required"
                    ++ (fault_if (str_eq e.system_name "") "system_name is required"
                        ++ (fault_if (str_eq e.database_engine "") "database_engine is required"
                            ++ (fault_if (str_eq e.finding_id "") "finding_id is required"
                                ++ (fault_if (str_eq e.fingerprint "") "fingerprint is required"
                                    ++ (fault_if (str_eq e.control_code "")
                                          "control_code is required"
                                        ++ (fault_if (str_eq e.control_name "")
                                              "control_name is required"
                                            ++ (fault_if (str_eq e.finding_title "")
                                                  "finding_title is required"
                                                ++ (enum_faults e.severity
                                                      (is_valid_severity to_upper e.severity)
                                                      "severity is required" "invalid severity"
                                                    ++ (enum_faults e.finding_status
                                                          (is_valid_finding_status e.finding_status)
                                                          "finding_status is required"
                                                          "invalid finding_status"
                                                        ++ (fault_if (e.first_seen == 0)
                                                            "first_seen is required"
                                                            ++ (fault_if (e.last_seen == 0)
                                                            "last_seen is required"
                                                            ++ (fault_if (str_eq e.source "")
                                                            "source is required"
                                                            ++ export_faults
                                                            e.export))))))))))))))))

-- `Validate() == nil`
abbrev pub is_valid : (String → String) → Event → Bool
is_valid to_upper e = elim (validate to_upper e) [ [] ↦ true | _ ∷ _ ↦ false ]
