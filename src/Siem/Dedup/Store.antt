-- ===== src/Siem/Dedup/Store.antt =====
-- The operations of the deduplicator that go through the shared file (pkg/siem/dedup.go). The lock,
-- the file system and the clock answer through a `DedupEnv`.
use basecheck_agent.Prelude.{ℕ, ℤ, Option, none, some, List, [], ◌∷◌, ltb, if◌then◌else◌}
use basecheck_agent.Prelude.Dict.{lookup, insert, delete, values}
use basecheck_agent.Siem.Fault.{Fault}
use basecheck_agent.Siem.Event.{Time, Event}
use basecheck_agent.Siem.Dedup.{
  DedupEntry, Cache, Deduplicator, window_duration, is_expired, update_cache, prune_expired,
  reserve, window_hours_of,
}

pub record DedupEnv : Type 0 where
  pub now : Time
  pub lock : Option Fault
  pub read : Option Fault
  pub write : Option Fault

-- `merged[entry.Fingerprint] = entry` for each entry on disk
unfoldable pub from_disk : Cache → List DedupEntry → Cache
from_disk merged [] = merged
from_disk merged (entry ∷ entries) = from_disk (insert entry.fingerprint entry merged) entries

abbrev pub newest_of : Option DedupEntry → DedupEntry → DedupEntry
newest_of none entry = entry
newest_of (some existing) entry =
    if ltb entry.last_delivered existing.last_delivered then existing else entry

-- The loop over the entries in memory: the newer entry wins, and on a tie the one in memory.
unfoldable pub merge_memory : Cache → Cache → Cache
merge_memory merged [] = merged
merge_memory merged ((fp, entry) ∷ cache) =
    merge_memory (insert fp (newest_of (lookup fp merged) entry) merged) cache

unfoldable pub reload_and_merge : List DedupEntry → Cache → Cache
reload_and_merge on_disk cache = merge_memory (from_disk [] on_disk) cache

-- The deduplicator, the file, and the result of an operation afterwards.
pub record Step {ℓ} (A : Type ℓ) : Type ℓ where
  pub dedup : Deduplicator
  pub file : List DedupEntry
  pub result : A

abbrev pub with_cache : Deduplicator → Cache → Deduplicator
with_cache d cache = record d { cache = cache }

-- Any failure suppresses the whole batch.
unfoldable pub filter : DedupEnv → Deduplicator → List DedupEntry → List Event → Step (List Event)
filter env d file events = elim env.lock [
  | some _ ↦ record { dedup = d; file = file; result = [] }
  | none ↦ elim env.read [
    | some _ ↦ record { dedup = d; file = file; result = [] }
    | none ↦
        let merged = reload_and_merge file d.cache in
        let window = window_duration d in
        let (reserved, emitted) = reserve env.now window merged events in
        let pruned = prune_expired reserved env.now window in
        elim env.write [
          | some _ ↦ record { dedup = with_cache d merged; file = file; result = [] }
          | none ↦ record { dedup = with_cache d pruned; file = values pruned; result = emitted }
        ]
  ]
]

unfoldable pub delete_all : Cache → List Event → Cache
delete_all cache [] = cache
delete_all cache (event ∷ events) = delete_all (delete event.fingerprint cache) events

-- Under the locks: reload, change the cache, prune and write. `some` is the error.
unfoldable pub persist_change :
    DedupEnv → Deduplicator → List DedupEntry → (Cache → Cache) → Step (Option Fault)
persist_change env d file change = elim env.lock [
  | some e ↦ record { dedup = d; file = file; result = some e }
  | none ↦ elim env.read [
    | some e ↦ record { dedup = d; file = file; result = some e }
    | none ↦
        let changed = change (reload_and_merge file d.cache) in
        let pruned = prune_expired changed env.now (window_duration d) in
        elim env.write [
          | some e ↦ record { dedup = with_cache d pruned; file = file; result = some e }
          | none ↦ record { dedup = with_cache d pruned; file = values pruned; result = none }
        ]
  ]
]

unfoldable pub release :
    DedupEnv → Deduplicator → List DedupEntry → List Event → Step (Option Fault)
release env d file [] = record { dedup = d; file = file; result = none }
release env d file (event ∷ events) =
    persist_change env d file (λ cache. delete_all cache (event ∷ events))

-- `Persist`, which is all that `Close` does.
unfoldable pub close : DedupEnv → Deduplicator → List DedupEntry → Step (Option Fault)
close env d file = persist_change env d file (λ cache. cache)

unfoldable pub update_all : Cache → List Event → Time → Cache
update_all cache [] now = cache
update_all cache (event ∷ events) now = update_all (update_cache cache event now) events now

-- The update and a first pruning come before the file is read.
unfoldable pub record_delivered :
    DedupEnv → Deduplicator → List DedupEntry → List Event → Step (Option Fault)
record_delivered env d file events =
    let updated = prune_expired (update_all d.cache events env.now) env.now (window_duration d) in
    persist_change env (with_cache d updated) file (λ cache. cache)

-- `load`: the entries on disk that have not expired.
unfoldable pub load : Time → ℕ → Cache → List DedupEntry → Cache
load now window cache [] = cache
load now window cache (entry ∷ entries) =
    load now window
      (if is_expired now window entry then cache else insert entry.fingerprint entry cache) entries

-- The settings of a deduplicator, without the path of its file.
abbrev pub opened_empty : ℤ → Deduplicator
opened_empty hours = record { cache = []; window_hours = window_hours_of hours }

-- The deduplicator or whether the file is put aside, and the file afterwards.
pub data OpenedDedup : Type 0 where
  opened : Deduplicator → OpenedDedup
  lock_failed : Fault → OpenedDedup
  moved : Fault → OpenedDedup
  stuck : Fault → Fault → OpenedDedup

-- `NewDeduplicator`; `rename` is the error of putting a file aside that cannot be read, other than
-- that there is none.
unfoldable pub new_deduplicator :
    DedupEnv → Option Fault → ℤ → List DedupEntry → OpenedDedup × List DedupEntry
new_deduplicator env rename hours file =
    let d = opened_empty hours in
    elim env.lock [
      | some e ↦ (lock_failed e, file)
      | none ↦ elim env.read [
        | none ↦ (opened (with_cache d (load env.now (window_duration d) [] file)), file)
        | some e ↦ elim rename [ some x ↦ (stuck e x, file) | none ↦ (moved e, []) ]
      ]
    ]
