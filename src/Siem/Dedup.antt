-- ===== src/Siem/Dedup.antt =====
-- The deduplicator of pkg/siem/dedup.go: the cache of what was last emitted for each fingerprint,
-- the file that processes share, and the decision to emit or to suppress.
-- A window is in nanoseconds and stays below 2^63 (it is at most 2,562,047 hours), and a time that
-- lies in the future counts as 0 nanoseconds ago, which is within every window as in Go.
-- The file is held decoded; a file that does not parse is an error of reading it.
pub mod Store
pub mod Lifecycle
pub mod Laws
pub mod Filter
pub mod Repeat
pub mod Decision
pub mod Contract
pub mod Restart
use basecheck_agent.Prelude.{
  ℕ, ◌-◌, ◌*◌, String, ℤ, is_nonpos, to_ℕ, Bool, true, false, not, ◌||◌, Option, none, some, List,
  [], ◌∷◌, ltb, if◌then◌else◌, str_eq,
}
use basecheck_agent.Prelude.Dict.{Dict, lookup, insert, delete, retain}
use basecheck_agent.Siem.Event.{
  Time, Event, EventExport, event_type_remediated, event_type_regressed, event_type_updated,
}

pub record DedupEntry : Type 0 where
  pub fingerprint : String
  pub system_id : String
  pub last_status : String
  pub last_event_type : String
  pub last_delivered : Time
  pub control_code : String
  pub control_name : String
  pub control_pack_name : String
  pub control_pack_version : String

abbrev pub Cache : Type 0
Cache = Dict DedupEntry

pub record Deduplicator : Type 0 where
  pub cache : Cache
  pub window_hours : ℕ

-- The default window of `NewDeduplicator`.
abbrev pub window_hours_of : ℤ → ℕ
window_hours_of hours = if is_nonpos hours then 24 else to_ℕ hours

-- `time.Duration(d.windowHours) * time.Hour`
abbrev pub window_duration : Deduplicator → ℕ
window_duration d = d.window_hours * 3_600_000_000_000

-- `now.Sub(entry.LastDelivered) > window`
abbrev pub is_expired : Time → ℕ → DedupEntry → Bool
is_expired now window entry = ltb window (now - entry.last_delivered)

-- The last type does not matter.
abbrev pub is_significant_event_type_change : String → String → Bool
is_significant_event_type_change last_type new_type =
    str_eq new_type event_type_remediated
    || (str_eq new_type event_type_regressed || str_eq new_type event_type_updated)

-- The decision on a fingerprint's entry, if it has one.
unfoldable pub should_emit_over : Option DedupEntry → Event → Time → ℕ → Bool
should_emit_over none event now window = true
should_emit_over (some entry) event now window =
    if is_expired now window entry
    then true
    else if not (str_eq event.finding_status entry.last_status)
    then true
    else is_significant_event_type_change entry.last_event_type event.event_type

unfoldable pub should_emit : Cache → Event → Time → ℕ → Bool
unfolding should_emit_over
should_emit cache event now window =
    should_emit_over (lookup event.fingerprint cache) event now window

abbrev pub pack_name_of : Option EventExport → String
pack_name_of none = ""
pack_name_of (some x) = x.control_pack_name

abbrev pub pack_version_of : Option EventExport → String
pack_version_of none = ""
pack_version_of (some x) = x.control_pack_version

abbrev pub entry_of : Event → Time → DedupEntry
entry_of event now = record {
  fingerprint = event.fingerprint;
  system_id = event.system_id;
  last_status = event.finding_status;
  last_event_type = event.event_type;
  last_delivered = now;
  control_code = event.control_code;
  control_name = event.control_name;
  control_pack_name = pack_name_of event.export;
  control_pack_version = pack_version_of event.export;
}

unfoldable pub update_cache : Cache → Event → Time → Cache
update_cache cache event now = insert event.fingerprint (entry_of event now) cache

unfoldable pub prune_expired : Cache → Time → ℕ → Cache
prune_expired cache now window = retain (λ entry. not (is_expired now window entry)) cache

-- The loop of `Filter`: the cache with its reservations, and the events to emit.
unfoldable pub reserve : Time → ℕ → Cache → List Event → Cache × List Event
reserve now window cache [] = (cache, [])
reserve now window cache (event ∷ events) =
    let emitted = reserve now window (update_cache cache event now) events in
    let suppressed = reserve now window cache events in
    if should_emit cache event now window then (emitted.0, event ∷ emitted.1) else suppressed
