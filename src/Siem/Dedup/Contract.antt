-- ===== src/Siem/Dedup/Contract.antt =====
-- The contract of `Filter`, `Release` and `RecordDelivered` of pkg/siem/dedup.go between processes
-- that share one file.
use basecheck_agent.Prelude.{
  ℕ, ◌+◌, ◌≤◌, ◌≡◌, ◌⊎◌, inl, inr, refl, sym, subst, ◌∙◌, String, true, not, Option, none, List, [],
  ◌∷◌, eq_iff, arith, All, Option-cases, is_some, ◌||◌,
}
use basecheck_agent.Prelude.Dict.{lookup, delete, values, lookup-delete, lookup-retain}
use basecheck_agent.Siem.Fault.{Fault}
use basecheck_agent.Siem.Event.{Time, Event}
use basecheck_agent.Siem.Dedup.{
  DedupEntry, Cache, Deduplicator, window_duration, is_expired, update_cache, prune_expired,
  reserve, entry_of, should_emit, should_emit_over,
}
use basecheck_agent.Siem.Dedup.Store.{
  from_disk, reload_and_merge, DedupEnv, Step, filter, with_cache, delete_all, release,
  persist_change, update_all, record_delivered,
}
use basecheck_agent.Siem.Dedup.Laws.{
  lookup-merge_memory, IsWellFormed, reload_and_merge-IsWellFormed, prune_expired-IsWellFormed,
  insert-IsWellFormed, delete-IsWellFormed,
}
use basecheck_agent.Siem.Dedup.Filter.{
  IsReserved, IsConsistent, IsOlder, filter_succeeds, reserve-IsWellFormed, reserve-All,
  prune-IsReserved, merged-IsReserved, lookup-from_disk,
}
use basecheck_agent.Siem.Dedup.Repeat.{
  always_emitted, reserve-remembered, All-IsRemembered, reserve-IsConsistent,
}

-- No lock, read or write fails.
abbrev pub IsSound : DedupEnv → Type 0
IsSound env = (env.lock ≡ none) × (env.read ≡ none) × (env.write ≡ none)

prune-All :
    (now : Time) (window : ℕ) (cache : Cache) (es : List Event)
    → All (IsReserved cache now) es
    → All (IsReserved (prune_expired cache now window) now) es
prune-All now window cache [] h = tt
prune-All now window cache (e ∷ es) (r, h) =
    (prune-IsReserved now window cache e r, prune-All now window cache es h)

merge-All :
    (written cache : Cache) (now : Time) (es : List Event)
    → IsWellFormed written
    → IsWellFormed cache
    → IsOlder cache now
    → All (IsReserved written now) es
    → All (IsReserved (reload_and_merge (values written) cache) now) es
merge-All written cache now [] ww wc older h = tt
merge-All written cache now (e ∷ es) ww wc older (r, h) = (
  merged-IsReserved written cache now e ww wc older r,
  merge-All written cache now es ww wc older h,
)

-- What a filter without a failure writes: a well-formed cache that holds every emitted event.
pub filter-reserves :
    (env : DedupEnv) (d : Deduplicator) (file : List DedupEntry) (events : List Event)
    → IsSound env
    → IsWellFormed d.cache
    → IsConsistent events
    → (written : Cache) × ((filter env d file events).file ≡ values written)
      × IsWellFormed written
      × All (IsReserved written env.now) (filter env d file events).result
      × IsConsistent (filter env d file events).result
filter-reserves env d file events (l, r, w) wd consistent =
    let window = window_duration d in
    let merged = reload_and_merge file d.cache in
    let reserved = (reserve env.now window merged events).0 in
    let (result, on_disk) = filter_succeeds env d file events l r w in
    (
      prune_expired reserved env.now window,
      on_disk,
      prune_expired-IsWellFormed reserved env.now window (
          reserve-IsWellFormed env.now window merged events
            (reload_and_merge-IsWellFormed file d.cache wd)),
      prune-All env.now window reserved (filter env d file events).result
          (rw result (reserve-All env.now window merged events consistent)),
      rw result (reserve-IsConsistent env.now window merged events consistent),
    )

-- What one process has emitted, no other process emits again within its window: of the events that
-- the first let through, a second process that shares the file, and whose own entries are older, lets
-- through those of a type that is always emitted (remediated, regressed and updated), in order, and
-- suppresses all others. The batch of the first process gives one status to each fingerprint, the
-- caches have one entry for each, and no lock, read or write fails.
pub filter-filter :
    (first second : DedupEnv) (d d' : Deduplicator) (file : List DedupEntry) (events : List Event)
    → IsSound first
    → IsSound second
    → IsWellFormed d.cache
    → IsWellFormed d'.cache
    → IsConsistent events
    → IsOlder d'.cache first.now
    → second.now ≤ first.now + window_duration d'
    → (filter second d'
        (filter first d file events).file
        (filter first d file events).result).result
      ≡ always_emitted (filter first d file events).result
filter-filter first second d d' file events sound (l', r', w') wd wd' consistent older le =
    let emitted = (filter first d file events).result in
    let (written, on_disk, well, all_reserved, one_status) =
      filter-reserves first d file events sound wd consistent in
    (filter_succeeds second d' (filter first d file events).file emitted l' r' w').0
    ∙ reserve-remembered second.now (window_duration d') _ emitted one_status (
        All-IsRemembered _ first.now second.now (window_duration d') emitted
          (rw on_disk (merge-All written d'.cache first.now emitted well wd' older all_reserved))
          le)

-- A failure of the lock, of reading or of writing suppresses the whole batch, leaves the file as it
-- was, and keeps no reservation in memory.
pub filter_fails_closed :
    (env : DedupEnv) (d : Deduplicator) (file : List DedupEntry) (events : List Event)
    → (is_some env.lock || (is_some env.read || is_some env.write)) ≡ true
    → ((filter env d file events).result ≡ [])
      × ((filter env d file events).file ≡ file)
      × (((filter env d file events).dedup.cache ≡ d.cache)
          ⊎ ((filter env d file events).dedup.cache ≡ reload_and_merge file d.cache))
unfolding filter
filter_fails_closed env d file events h = ground arith

delete_all-IsWellFormed :
    (cache : Cache) (es : List Event) → IsWellFormed cache → IsWellFormed (delete_all cache es)
unfolding delete_all
delete_all-IsWellFormed cache [] w = w
delete_all-IsWellFormed cache (e ∷ es) w =
    delete_all-IsWellFormed (delete e.fingerprint cache) es
      (delete-IsWellFormed e.fingerprint cache w)

stays_deleted :
    (fp : String) (cache : Cache) (es : List Event)
    → lookup fp cache ≡ none
    → lookup fp (delete_all cache es) ≡ none
unfolding delete_all
stays_deleted fp cache [] h = h
stays_deleted fp cache (e ∷ es) h =
    stays_deleted fp (delete e.fingerprint cache) es
      (ground (arith, lookup-delete e.fingerprint fp cache))

delete_all-deletes :
    (cache : Cache) (es : List Event)
    → All (λ e. lookup e.fingerprint (delete_all cache es) ≡ none) es
unfolding delete_all
delete_all-deletes cache [] = tt
delete_all-deletes cache (e ∷ es) = (
  stays_deleted e.fingerprint (delete e.fingerprint cache) es (
      ground (
        arith,
        lookup-delete e.fingerprint e.fingerprint cache,
        eq_iff e.fingerprint e.fingerprint,
      )),
  delete_all-deletes (delete e.fingerprint cache) es,
)

pruned_away :
    (fp : String) (cache : Cache) (now : Time) (window : ℕ)
    → lookup fp cache ≡ none
    → lookup fp (prune_expired cache now window) ≡ none
unfolding prune_expired
pruned_away fp cache now window h =
    rw (lookup-retain (λ x. not (is_expired now window x)) fp cache, h)

absent_after_reload :
    (fp : String) (cache : Cache) (now : Time) (window : ℕ)
    → IsWellFormed cache
    → lookup fp cache ≡ none
    → lookup fp (
        reload_and_merge (values (prune_expired cache now window)) (prune_expired cache now window))
      ≡ none
unfolding reload_and_merge lookup
absent_after_reload fp cache now window w h =
    let pruned = prune_expired cache now window in
    let well = prune_expired-IsWellFormed cache now window w in
    let gone : lookup fp pruned ≡ none = pruned_away fp cache now window h in
    rw (
      lookup-merge_memory fp (from_disk [] (values pruned)) pruned well.distinct,
      lookup-from_disk fp pruned [] well,
      gone,
    )

All-free :
    (changed : Cache) (now later : Time) (window window' : ℕ) (es : List Event)
    → IsWellFormed changed
    → All (λ e. lookup e.fingerprint changed ≡ none) es
    → All
        (λ e.
          should_emit
            (reload_and_merge
              (values (prune_expired changed now window))
              (prune_expired changed now window))
            e
            later
            window'
          ≡ true)
        es
unfolding should_emit should_emit_over
All-free changed now later window window' [] w h = tt
All-free changed now later window window' (e ∷ es) w (gone, h) = (
  rw (absent_after_reload e.fingerprint changed now window w gone),
  All-free changed now later window window' es w h,
)

-- The reservations of the events are gone for every later decision over this file and this cache.
abbrev pub IsFree : List Event → Time → ℕ → Step (Option Fault) → Type 0
IsFree events later window after =
    (after.result ≡ none)
    × All (λ e. should_emit (reload_and_merge after.file after.dedup.cache) e later window ≡ true)
        events

release_succeeds :
    (env : DedupEnv) (d : Deduplicator) (file : List DedupEntry) (event : Event)
    (events : List Event)
    → IsSound env
    → release env d file (event ∷ events) ≡ (
        let pruned =
          prune_expired
            (delete_all (reload_and_merge file d.cache) (event ∷ events))
            env.now
            (window_duration d) in
        record { dedup = with_cache d pruned; file = values pruned; result = none })
unfolding release persist_change
release_succeeds env d file event events (l, r, w) = rw (l, r, w, persist_change)

-- A released fingerprint is free again: a release of one event or more that meets no failure
-- reports no error, and from then on the deduplicator lets every released event through at any
-- time, whatever its type and status.
pub release-IsFree :
    (env : DedupEnv) (d : Deduplicator) (file : List DedupEntry) (event : Event)
    (events : List Event) (later : Time) (window : ℕ)
    → IsSound env
    → IsWellFormed d.cache
    → IsFree (event ∷ events) later window (release env d file (event ∷ events))
release-IsFree env d file event events later window sound well =
    let merged = reload_and_merge file d.cache in
    subst (IsFree (event ∷ events) later window)
      (sym (release_succeeds env d file event events sound))
      (
        refl,
        All-free (delete_all merged (event ∷ events)) env.now later (window_duration d) window
            (event ∷ events)
            (delete_all-IsWellFormed merged (event ∷ events)
              (reload_and_merge-IsWellFormed file d.cache well))
            (delete_all-deletes merged (event ∷ events)),
      )

update_all-IsWellFormed :
    (cache : Cache) (es : List Event) (now : Time)
    → IsWellFormed cache
    → IsWellFormed (update_all cache es now)
unfolding update_all update_cache
update_all-IsWellFormed cache [] now w = w
update_all-IsWellFormed cache (e ∷ es) now w =
    update_all-IsWellFormed (update_cache cache e now) es now
      (insert-IsWellFormed e.fingerprint (entry_of e now) cache refl w)

persist_change-IsWellFormed :
    (env : DedupEnv) (d : Deduplicator) (file : List DedupEntry) (change : Cache → Cache)
    → ((c : Cache) → IsWellFormed c → IsWellFormed (change c))
    → IsWellFormed d.cache
    → IsWellFormed (persist_change env d file change).dedup.cache
unfolding persist_change
persist_change-IsWellFormed env d file change keeps w =
    let changed =
      prune_expired-IsWellFormed (change (reload_and_merge file d.cache)) env.now
        (window_duration d) (keeps _ (reload_and_merge-IsWellFormed file d.cache w)) in
    elim (Option-cases env.lock) [
      | inr (e, l) ↦ rw (l, persist_change) w
      | inl l ↦ elim (Option-cases env.read) [
        | inr (e, r) ↦ rw (l, r, persist_change) w
        | inl r ↦ elim (Option-cases env.write) [
          | inr (e, x) ↦ rw (l, r, x, persist_change) changed
          | inl x ↦ rw (l, r, x, persist_change) changed
        ]
      ]
    ]

filter-IsWellFormed :
    (env : DedupEnv) (d : Deduplicator) (file : List DedupEntry) (events : List Event)
    → IsWellFormed d.cache
    → IsWellFormed (filter env d file events).dedup.cache
unfolding filter
filter-IsWellFormed env d file events w =
    let merged = reload_and_merge-IsWellFormed file d.cache w in
    elim (Option-cases env.lock) [
      | inr (e, l) ↦ rw (l, filter) w
      | inl l ↦ elim (Option-cases env.read) [
        | inr (e, r) ↦ rw (l, r, filter) w
        | inl r ↦ elim (Option-cases env.write) [
          | inr (e, x) ↦ rw (l, r, x, filter) merged
          | inl x ↦
              rw (l, r, x, filter)
                (prune_expired-IsWellFormed _ env.now (window_duration d)
                  (reserve-IsWellFormed env.now (window_duration d) _ events merged))
        ]
      ]
    ]

release-IsWellFormed :
    (env : DedupEnv) (d : Deduplicator) (file : List DedupEntry) (events : List Event)
    → IsWellFormed d.cache
    → IsWellFormed (release env d file events).dedup.cache
unfolding release
release-IsWellFormed env d file [] w = w
release-IsWellFormed env d file (e ∷ es) w =
    persist_change-IsWellFormed env d file (λ c. delete_all c (e ∷ es))
      (λ c h. delete_all-IsWellFormed c (e ∷ es) h) w

-- Whatever fails on the way, each operation of the deduplicator keeps the cache well formed: one
-- entry for each fingerprint, stored under that fingerprint.
pub operations-IsWellFormed :
    (env : DedupEnv) (d : Deduplicator) (file : List DedupEntry) (events : List Event)
    → IsWellFormed d.cache
    → IsWellFormed (filter env d file events).dedup.cache
      × IsWellFormed (release env d file events).dedup.cache
      × IsWellFormed (record_delivered env d file events).dedup.cache
unfolding record_delivered
operations-IsWellFormed env d file events w = (
  filter-IsWellFormed env d file events w,
  release-IsWellFormed env d file events w,
  persist_change-IsWellFormed env _ file (λ c. c) (λ c h. h)
      (prune_expired-IsWellFormed _ env.now (window_duration d)
        (update_all-IsWellFormed d.cache events env.now w)),
)
