-- ===== src/Siem/Examples/Deduplication.antt =====
-- Examples for the deduplicator.
use basecheck_agent.Prelude.{◌≡◌, ◌↔◌, refl, String, false, some, List, [], ◌∷◌, arith}
use basecheck_agent.Prelude.Dict.{insert, lookup}
use basecheck_agent.Siem.Event.{finding_status_remediated}
use basecheck_agent.Siem.Context.{FindingContext}
use basecheck_agent.Siem.Dedup.{
  reserve, update_cache, DedupEntry, Deduplicator, should_emit, entry_of,
}
use basecheck_agent.Siem.Dedup.Store.{merge_memory, from_disk, filter, reload_and_merge}
use basecheck_agent.Siem.Dedup.Laws.{IsWellFormed}
use basecheck_agent.Siem.Dedup.Contract.{filter-filter}
use basecheck_agent.Siem.Dedup.Repeat.{always_emitted}
use basecheck_agent.Siem.Dedup.Decision.{IsDuplicate, should_emit-eq-false_iff}
use basecheck_agent.Siem.Samples.{first_event, second_event, dedup_env}

abbrev fresh : Deduplicator
fresh = record { cache = []; window_hours = 24 }

fresh-IsWellFormed : IsWellFormed []
fresh-IsWellFormed = record { keyed = tt; distinct = tt }

first_emitted :
    (filter (dedup_env 10) fresh [] (first_event ∷ second_event ∷ [])).result
    ≡ first_event ∷ second_event ∷ []
unfolding filter reserve should_emit lookup reload_and_merge merge_memory from_disk update_cache
    insert
first_emitted = refl

filter-filter_example :
    (filter
      (dedup_env 20)
      fresh
      (filter (dedup_env 10) fresh [] (first_event ∷ [])).file
      (filter (dedup_env 10) fresh [] (first_event ∷ [])).result).result
    ≡ always_emitted (filter (dedup_env 10) fresh [] (first_event ∷ [])).result
unfolding filter lookup reserve should_emit reload_and_merge merge_memory from_disk
filter-filter_example =
    filter-filter (dedup_env 10) (dedup_env 20) fresh fresh [] (first_event ∷ []) (refl, refl, refl)
      (refl, refl, refl) fresh-IsWellFormed fresh-IsWellFormed (tt, tt) (λ fp x e. cc) (omega arith)

abbrev remembered : List (String × DedupEntry)
remembered = ("aa", entry_of first_event 5) ∷ []

should_emit-eq-false_iff_example : (should_emit remembered first_event 9 100 ≡ false) ↔ (
    (entry : DedupEntry) × (lookup first_event.fingerprint remembered ≡ some entry)
    × IsDuplicate entry first_event 9 100)
should_emit-eq-false_iff_example = should_emit-eq-false_iff remembered first_event 9 100

abbrev fixed : DedupEntry
fixed = record (entry_of first_event 5) { last_status = finding_status_remediated }

abbrev context : FindingContext
context = record {
  agent_id = "agent";
  agent_version = "1.0.0";
  system_id = "sys";
  system_name = "db";
  database_engine = "oracle";
  environment = "";
  control_pack_name = "pack";
  control_pack_version = "1.0.0";
  mode = "siem_only";
  destination = "webhook";
}
