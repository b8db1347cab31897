-- ===== src/Siem/Event/Laws.antt =====
-- What a valid event guarantees, and what a fingerprint depends on (pkg/siem/event.go).
use basecheck_agent.Prelude.{
  ℕ, String, ◌≡◌, ◌≢◌, ◌↔◌, ◌⊎◌, refl, true, Option, none, some, List, [], ◌∷◌, ◌++◌, arith, eq_iff,
  str_eq, ◌==◌, if◌then◌else◌,
}
use basecheck_agent.Siem.Event.{
  Event, EventExport, event_version, event_type_created, event_type_updated, event_type_recurring,
  event_type_remediated, event_type_regressed, finding_status_open, finding_status_remediated,
  finding_status_accepted, finding_status_false_pos, severity_critical, severity_high,
  severity_medium, severity_low, severity_info,
}
use basecheck_agent.Siem.Event.Validation.{
  validate, is_valid, export_faults, fault_if, enum_faults, is_valid_event_type, is_valid_severity,
  is_valid_finding_status,
}

abbrev pub OneOf : String → List String → Type 0
OneOf s [] = ⊥
OneOf s (x ∷ xs) = (s ≡ x) ⊎ OneOf s xs

-- The export metadata that a delivered event carries.
abbrev pub IsDeliverable : Option EventExport → Type 0
IsDeliverable none = ⊥
IsDeliverable (some x) =
    (x.control_pack_name ≢ "")
    × ((x.control_pack_version ≢ "")
        × ((x.agent_version ≢ "")
            × ((x.mode ≢ "") × ((x.destination ≢ "") × (x.delivery_id ≢ "")))))

abbrev pub event_types : List String
event_types =
    event_type_created ∷ event_type_updated ∷ event_type_recurring ∷ event_type_remediated
    ∷ event_type_regressed ∷ []

abbrev pub severities : List String
severities = severity_critical ∷ severity_high ∷ severity_medium ∷ severity_low ∷ severity_info ∷ []

abbrev pub finding_statuses : List String
finding_statuses =
    finding_status_open ∷ finding_status_remediated ∷ finding_status_accepted
    ∷ finding_status_false_pos ∷ []

-- The v1 contract, field by field.
abbrev pub MeetsContract : (String → String) → Event → Type 0
MeetsContract to_upper e =
    (e.version ≡ event_version)
    × (((e.event_type ≢ "") × OneOf e.event_type event_types)
        × ((e.event_time ≢ 0)
            × ((e.agent_id ≢ "")
                × ((e.system_id ≢ "")
                    × ((e.system_name ≢ "")
                        × ((e.database_engine ≢ "")
                            × ((e.finding_id ≢ "")
                                × ((e.fingerprint ≢ "")
                                    × ((e.control_code ≢ "")
                                        × ((e.control_name ≢ "")
                                            × ((e.finding_title ≢ "")
                                                × (((e.severity ≢ "")
                                                      × OneOf (to_upper e.severity) severities)
                                                    × (((e.finding_status ≢ "")
                                                          × OneOf e.finding_status finding_statuses)
                                                        × ((e.first_seen ≢ 0)
                                                            × ((e.last_seen ≢ 0)
                                                            × ((e.source ≢ "")
                                                            × IsDeliverable e.export))))))))))))))))

append-eq-nil : (xs ys : List String) → (xs ++ ys ≡ []) ↔ ((xs ≡ []) × (ys ≡ []))
append-eq-nil [] ys = (λ e. (refl, e), λ h. h.1)
append-eq-nil (x ∷ xs) ys = (λ e. cc, λ h. cc (h.0))

fault_if-eq-nil : (s m : String) → (fault_if (str_eq s "") m ≡ []) ↔ (s ≢ "")
fault_if-eq-nil s m = ground (arith, eq_iff s "")

fault_if_zero-eq-nil : (t : ℕ) (m : String) → (fault_if (t == 0) m ≡ []) ↔ (t ≢ 0)
fault_if_zero-eq-nil t m = ground arith

event_type_faults-eq-nil :
    (t r i : String)
    → (enum_faults t (is_valid_event_type t) r i ≡ []) ↔ ((t ≢ "") × OneOf t event_types)
event_type_faults-eq-nil t r i = ground (
  arith,
  eq_iff t "",
  eq_iff t "created",
  eq_iff t "updated",
  eq_iff t "recurring",
  eq_iff t "remediated",
  eq_iff t "regressed",
)

severity_faults-eq-nil :
    (to_upper : String → String) (t r i : String)
    → (enum_faults t (is_valid_severity to_upper t) r i ≡ [])
      ↔ ((t ≢ "") × OneOf (to_upper t) severities)
severity_faults-eq-nil to_upper t r i =
    let u = to_upper t in
    ground (
      arith,
      eq_iff t "",
      eq_iff u "CRITICAL",
      eq_iff u "HIGH",
      eq_iff u "MEDIUM",
      eq_iff u "LOW",
      eq_iff u "INFO",
    )

status_faults-eq-nil :
    (t r i : String)
    → (enum_faults t (is_valid_finding_status t) r i ≡ []) ↔ ((t ≢ "") × OneOf t finding_statuses)
status_faults-eq-nil t r i = ground (
  arith,
  eq_iff t "",
  eq_iff t "open",
  eq_iff t "remediated",
  eq_iff t "accepted",
  eq_iff t "false_pos",
)

version_faults-eq-nil :
    (v m : String) → ((if str_eq v event_version then [] else m ∷ []) ≡ []) ↔ (v ≡ event_version)
version_faults-eq-nil v m = ground (arith, eq_iff v "basecheck.siem.v1")

export_faults-eq-nil : (o : Option EventExport) → (export_faults o ≡ []) ↔ IsDeliverable o
unfolding export_faults
export_faults-eq-nil none = (λ e. cc, λ h. absurd h)
export_faults-eq-nil (some x) = simp (append-eq-nil, fault_if-eq-nil) (λ h. h, λ h. h)

validate-eq-nil :
    (to_upper : String → String) (e : Event) → (validate to_upper e ≡ []) ↔ MeetsContract to_upper e
unfolding validate
validate-eq-nil to_upper e =
    simp
      (
        append-eq-nil, fault_if-eq-nil, fault_if_zero-eq-nil, event_type_faults-eq-nil,
        severity_faults-eq-nil, status_faults-eq-nil, version_faults-eq-nil, export_faults-eq-nil,
      )
      (λ h. h, λ h. h)

is_valid-eq-nil :
    (to_upper : String → String) (e : Event)
    → (is_valid to_upper e ≡ true) ↔ (validate to_upper e ≡ [])
is_valid-eq-nil to_upper e = ground arith

-- `Validate` accepts an event exactly when it meets the v1 contract: the version, each required
-- field, the enumerated fields within their values, and complete export metadata.
pub is_valid_iff :
    (to_upper : String → String) (e : Event)
    → (is_valid to_upper e ≡ true) ↔ MeetsContract to_upper e
is_valid_iff to_upper e = (
  λ h. (validate-eq-nil to_upper e).0 ((is_valid-eq-nil to_upper e).0 h),
  λ h. (is_valid-eq-nil to_upper e).1 ((validate-eq-nil to_upper e).1 h),
)

delivery_of_IsDeliverable :
    (o : Option EventExport)
    → IsDeliverable o
    → (x : EventExport) × (o ≡ some x) × (x.delivery_id ≢ "")
delivery_of_IsDeliverable none h = absurd h
delivery_of_IsDeliverable (some x) (_, (_, (_, (_, (_, d))))) = (x, refl, d)

contract_export :
    (to_upper : String → String) (e : Event) → MeetsContract to_upper e → IsDeliverable e.export
contract_export to_upper e
      (_, (_, (_, (_, (_, (_, (_, (_, (_, (_, (_, (_, (_, (_, (_, (_, (_, h))))))))))))))))) =
    h

-- A valid event has export metadata with a delivery ID.
pub is_valid-delivery_id :
    (to_upper : String → String) (e : Event)
    → is_valid to_upper e ≡ true
    → (x : EventExport) × (e.export ≡ some x) × (x.delivery_id ≢ "")
is_valid-delivery_id to_upper e h =
    delivery_of_IsDeliverable e.export (contract_export to_upper e ((is_valid_iff to_upper e).0 h))
