-- ===== src/Siem/Dedup/Restart.antt =====
-- The deduplicator across a restart of the agent (`NewDeduplicator` of pkg/siem/dedup.go).
use basecheck_agent.Prelude.{
  ℕ, ℤ, ◌+◌, ◌≤◌, ◌≡◌, inl, inr, refl, ap, ◌∙◌, String, not, Option, none, some, List, [], ◌∷◌,
  str_eq, eq_iff, arith, All, Bool-cases,
}
use basecheck_agent.Prelude.Dict.{lookup, insert, values, lookup-insert, only_if}
use basecheck_agent.Siem.Fault.{Fault}
use basecheck_agent.Siem.Event.{Time, Event}
use basecheck_agent.Siem.Dedup.{DedupEntry, Cache, Deduplicator, window_duration, is_expired}
use basecheck_agent.Siem.Dedup.Store.{
  from_disk, reload_and_merge, DedupEnv, filter, with_cache, load, opened, opened_empty,
  new_deduplicator,
}
use basecheck_agent.Siem.Dedup.Laws.{newest, lookup-merge_memory, IsWellFormed, insert-IsWellFormed}
use basecheck_agent.Siem.Dedup.Filter.{
  IsReserved, IsConsistent, or_else, lookup-from_disk, filter_succeeds,
}
use basecheck_agent.Siem.Dedup.Repeat.{always_emitted, reserve-remembered, All-IsRemembered}
use basecheck_agent.Siem.Dedup.Contract.{IsSound, filter-reserves}

or_else-none : (o : Option DedupEntry) → or_else o none ≡ o
or_else-none none = refl
or_else-none (some entry) = refl

module _ (now : Time) (window : ℕ) where
  load-IsWellFormed :
      (merged : Cache) (entries : List DedupEntry)
      → IsWellFormed merged
      → IsWellFormed (load now window merged entries)
  unfolding load
  load-IsWellFormed merged [] w = w
  load-IsWellFormed merged (entry ∷ entries) w = elim (Bool-cases (is_expired now window entry)) [
    | inl y ↦ rw (y, load) (load-IsWellFormed merged entries w)
    | inr n ↦
        rw (n, load)
          (load-IsWellFormed (insert entry.fingerprint entry merged) entries
            (insert-IsWellFormed entry.fingerprint entry merged refl w))
  ]

  abbrev live : Option DedupEntry → Option DedupEntry
  live o = only_if (λ x. not (is_expired now window x)) o

  lookup-load :
      (fp : String) (cache merged : Cache)
      → IsWellFormed cache
      → lookup fp (load now window merged (values cache))
        ≡ or_else (live (lookup fp cache)) (lookup fp merged)
  unfolding load lookup
  lookup-load fp [] merged w = refl
  lookup-load fp ((k, entry) ∷ cache) merged w =
      let key = w.keyed.0 in
      let rest : IsWellFormed cache = record { keyed = w.keyed.1; distinct = w.distinct.1 } in
      let here = lookup-insert entry.fingerprint fp entry merged in
      let same_key : str_eq entry.fingerprint fp ≡ str_eq k fp = ap (λ z. str_eq z fp) key in
      elim (Bool-cases (is_expired now window entry)) [
        | inl old ↦
            let ih = lookup-load fp cache merged rest in
            rw (old, load, ih)
              (elim (Bool-cases (str_eq k fp)) [
                | inl same ↦ rw (same, ← (eq_iff k fp).0 same, w.distinct.0, old)
                | inr other ↦ rw other
              ])
        | inr young ↦
            let ih = lookup-load fp cache (insert entry.fingerprint entry merged) rest in
            rw (young, load, ih, here, same_key)
              (elim (Bool-cases (str_eq k fp)) [
                | inl same ↦ rw (same, ← (eq_iff k fp).0 same, w.distinct.0, young)
                | inr other ↦ rw other
              ])
      ]

  newest_same : (o : Option DedupEntry) → newest o (or_else (live o) none) ≡ o
  newest_same none = refl
  newest_same (some entry) = ground arith

  -- A cache that was loaded from a file adds nothing to it.
  lookup-reloaded :
      (fp : String) (written : Cache)
      → IsWellFormed written
      → lookup fp (reload_and_merge (values written) (load now window [] (values written)))
        ≡ lookup fp written
  unfolding reload_and_merge lookup
  lookup-reloaded fp written w =
      let loaded = load now window [] (values written) in
      let empty : IsWellFormed [] = record { keyed = tt; distinct = tt } in
      let distinct = (load-IsWellFormed [] (values written) empty).distinct in
      let disk = lookup-from_disk fp written [] w in
      let memory = lookup-load fp written [] w in
      let whole : or_else (lookup fp written) none ≡ lookup fp written =
        or_else-none (lookup fp written) in
      rw
        (
          lookup-merge_memory fp (from_disk [] (values written)) loaded distinct,
          disk,
          memory,
          whole,
        )
        (newest_same (lookup fp written))

  reloaded-All :
      (written : Cache) (at : Time) (es : List Event)
      → IsWellFormed written
      → All (IsReserved written at) es
      → All
          (IsReserved (reload_and_merge (values written) (load now window [] (values written))) at)
          es
  reloaded-All written at [] w h = tt
  reloaded-All written at (e ∷ es) w ((entry, found, when, status), h) = (
    (entry, lookup-reloaded e.fingerprint written w ∙ found, when, status),
    reloaded-All written at es w h,
  )

-- The deduplicator that a new process opens on the file.
abbrev pub reopened : DedupEnv → ℤ → List DedupEntry → Deduplicator
reopened env hours file =
    let d = opened_empty hours in with_cache d (load env.now (window_duration d) [] file)

-- What was emitted before a restart is not emitted again behind it: of the events that a filter let
-- through, a deduplicator that is opened, whenever that is, on the file that the filter has written
-- lets through those of a type that is always emitted (remediated, regressed and updated), in order,
-- and suppresses all others within its own window. The filtered batch gives one status to each
-- fingerprint, the first cache has one entry for each, and no lock, read or write fails.
pub new_deduplicator-filter :
    (first opening second : DedupEnv) (rename : Option Fault) (hours : ℤ) (d : Deduplicator)
    (file : List DedupEntry) (events : List Event)
    → IsSound first
    → IsSound opening
    → IsSound second
    → IsWellFormed d.cache
    → IsConsistent events
    → second.now ≤ first.now + window_duration (opened_empty hours)
    → (let s = filter first d file events in
        let d' = reopened opening hours s.file in
        ((new_deduplicator opening rename hours s.file).0 ≡ opened d')
        × ((filter second d' s.file s.result).result ≡ always_emitted s.result))
unfolding new_deduplicator
new_deduplicator-filter first opening second rename hours d file events sound (l, r, _) (l', r', w')
      wd consistent le =
    let s = filter first d file events in
    let window = window_duration (opened_empty hours) in
    let d' = reopened opening hours s.file in
    let (written, on_disk, well, all_reserved, one_status) =
      filter-reserves first d file events sound wd consistent in
    (
      rw (l, r, new_deduplicator) refl,
      (filter_succeeds second d' s.file s.result l' r' w').0
          ∙ reserve-remembered second.now window _ s.result one_status (
              All-IsRemembered _ first.now second.now window s.result
                (rw on_disk
                  (reloaded-All opening.now window written first.now s.result well all_reserved))
                le),
    )
