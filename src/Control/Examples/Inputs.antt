-- ===== src/Control/Examples/Inputs.antt =====
-- Watermarks, versions and paths on concrete inputs.
use basecheck_agent.Prelude.{
  ◌≡◌, ◌↔◌, refl, Bool-cases, true, false, some, none, List, [], ◌∷◌, ◌++◌, inl, inr, if◌then◌else◌,
  Option,
}
use basecheck_agent.Text.{
  Text, text, text_eq, is_empty, contains, drop_prefix, index_of, take, split, split_from,
  trim_left, trim_right, trim_space,
}
use basecheck_agent.Text.Numbers.{atoi, integer_at, digits_from}
use basecheck_agent.Control.Watermark.Conditions.{
  Datum, Watermark, nil, other, to_sql_int, to_sql_string, without_zone, matches_shape,
  normalize_watermark_timestamp, normalize_watermark_hash,
}
use basecheck_agent.Control.Watermark.{oracle_unified, watermark_condition}
use basecheck_agent.Control.Watermark.Laws.{
  outside, timestamp_of, hash_of, watermark_condition-outside,
}
use basecheck_agent.Control.Compatibility.{
  Requirements, agent_too_old, compare_from, compare_versions, version_segment, check_compatibility,
}
use basecheck_agent.Control.Access.{
  ends_in_slash, active_validation_path_allowed, canonicalize_active_validation_path,
  authorize_active_validation_path,
}
use basecheck_agent.Control.Access.Laws.{IsPathOf, IsAdmitted, authorize_active_validation_path_iff}
use basecheck_agent.Control.Capture.{Executor, Evidence, Backend, key_of, execute_evidence_capture}
use basecheck_agent.Control.Capture.Laws.{
  IsKept, IsUnderLease, execute_evidence_capture-IsUnderLease,
}

abbrev stopped_at : Text → Watermark
stopped_at time key = if text_eq key (text "event_timestamp") then other time else nil

abbrev spring : Watermark
spring = stopped_at (text "2024-04-02T03:04:05")

abbrev winter : Watermark
winter = stopped_at (text "2025-12-30T23:59:59.125Z")

abbrev injected : Watermark
injected = stopped_at (text "2025-12-30T23:59:59' OR '1'='1")

winter_cut : timestamp_of winter ≡ text "2025-12-30T23:59:59"
unfolding normalize_watermark_timestamp to_sql_string without_zone matches_shape trim_right
    trim_left index_of drop_prefix take text_eq
winter_cut = refl

injected_refused : timestamp_of injected ≡ []
unfolding normalize_watermark_timestamp to_sql_string without_zone matches_shape trim_right
    trim_left index_of drop_prefix take text_eq
injected_refused = refl

no_integers : (key : Text) → to_sql_int (spring key) ≡ to_sql_int (winter key)
unfolding to_sql_int atoi integer_at digits_from
no_integers key = elim (Bool-cases (text_eq key (text "event_timestamp"))) [
  | inl y ↦ rw y refl
  | inr n ↦ rw n refl
]

both_stamped : is_empty (timestamp_of spring) ≡ is_empty (timestamp_of winter)
unfolding normalize_watermark_timestamp to_sql_string without_zone matches_shape trim_right
    trim_left index_of drop_prefix take text_eq
both_stamped = refl

both_unhashed : is_empty (hash_of spring) ≡ is_empty (hash_of winter)
unfolding normalize_watermark_hash trim_left trim_right text_eq
both_unhashed = refl

watermark_condition-outside_example :
    outside false (watermark_condition spring oracle_unified ++ text " ORDER BY 1")
    ≡ outside false (watermark_condition winter oracle_unified ++ text " ORDER BY 1")
watermark_condition-outside_example =
    watermark_condition-outside spring winter (text " ORDER BY 1") oracle_unified no_integers
      both_stamped both_unhashed

abbrev from_ten : Requirements
from_ten = record {
  agent_min_version = text "1.10.0";
  agent_max_version = [];
  database_versions = text "15." ∷ [];
}

segments_by_number :
    check_compatibility from_ten (text "1.9.2") (text "PostgreSQL 15.4") ≡ some agent_too_old
unfolding check_compatibility compare_versions compare_from version_segment split split_from
    drop_prefix trim_right trim_left atoi integer_at digits_from contains
segments_by_number = refl

-- A version that is no number counts as 0, and so passes a highest version.
malformed_passes :
    check_compatibility
      (record from_ten { agent_min_version = []; agent_max_version = text "1.0" })
      (text "dev")
      (text "PostgreSQL 15.4")
    ≡ none
unfolding check_compatibility compare_versions compare_from version_segment split split_from
    drop_prefix trim_right trim_left atoi integer_at digits_from contains
malformed_passes = refl

-- Paths that are clean as they are, without a query.
abbrev clean : Text → Text
clean path = path

abbrev parse : Text → Option Text
parse path = some path

abbrev safe_only : List Text
safe_only = text "/api/safe" ∷ []

neighbour_refused :
    authorize_active_validation_path clean parse safe_only (text "/api/safe-admin/x") ≡ none
unfolding authorize_active_validation_path canonicalize_active_validation_path
    active_validation_path_allowed ends_in_slash trim_right trim_left contains drop_prefix text_eq
neighbour_refused = refl

authorize_active_validation_path_iff_example :
    (authorize_active_validation_path clean parse safe_only (text "/api/safe/x")
      ≡ some (text "/api/safe/x"))
    ↔ ((text "/api/safe/x" ≡ trim_space (text "/api/safe/x"))
        × ((path : Text) × IsPathOf clean parse (trim_space (trim_space (text "/api/safe/x"))) path
            × IsAdmitted clean path safe_only))
authorize_active_validation_path_iff_example =
    authorize_active_validation_path_iff clean parse safe_only (text "/api/safe/x")
      (text "/api/safe/x")

-- A database of which the grants are captured for the first time.
abbrev fresh : Executor
fresh = record {
  use_ingestion_state = true;
  database_type = text "oracle";
  database_name = text "hr";
  leases = λ key. none;
}

abbrev grants : Evidence
grants = record {
  evidence_type = text "audit_operations";
  source_mode = [];
  source_path = [];
  sql = text "SELECT 1";
}

abbrev granted : Backend
granted = record {
  insecure = false;
  reply = some (record {
    status_code = 200;
    decoded = some (record {
      lease_token = text "t1";
      source_key = [];
      source_mode = [];
      watermark_json = [];
    });
  });
}

abbrev one_operation : Text → Option (List Watermark)
one_operation sql = some (spring ∷ [])

abbrev as_json : List (Text × Datum) → Option Text
as_json fields = some (text "{}")

fresh-IsKept : IsKept fresh
fresh-IsKept key lease e = absurd (cc)

execute_evidence_capture-IsUnderLease_example :
    let (result, after) =
      execute_evidence_capture (λ json. none) as_json (λ s. s) fresh granted one_operation grants in
    IsKept after × IsUnderLease (key_of (λ s. s) fresh grants) result
execute_evidence_capture-IsUnderLease_example =
    execute_evidence_capture-IsUnderLease (λ json. none) as_json (λ s. s) fresh granted
      one_operation grants fresh-IsKept
