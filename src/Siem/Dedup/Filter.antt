-- ===== src/Siem/Dedup/Filter.antt =====
-- What `Filter` of pkg/siem/dedup.go promises: it reserves what it lets through, so that a second
-- process cannot emit it again, and it fails closed.
use basecheck_agent.Prelude.{
  ℕ, ◌<◌, ◌≡◌, inl, inr, refl, ap, String, true, not, Option, none, some, List, [], ◌∷◌, str_eq,
  eq_iff, arith, All, Bool-cases, Option-cases,
}
use basecheck_agent.Prelude.Dict.{lookup, insert, values, lookup-insert, lookup-retain}
use basecheck_agent.Siem.Event.{Time, Event}
use basecheck_agent.Siem.Dedup.{
  DedupEntry, Cache, Deduplicator, window_duration, is_expired, update_cache, prune_expired,
  reserve, entry_of, should_emit,
}
use basecheck_agent.Siem.Dedup.Store.{from_disk, reload_and_merge, DedupEnv, filter}
use basecheck_agent.Siem.Dedup.Laws.{lookup-merge_memory, IsWellFormed, insert-IsWellFormed}

-- The cache says that the event was emitted at that time, with that status.
abbrev pub IsReserved : Cache → Time → Event → Type 0
IsReserved cache now e =
    (entry : DedupEntry) × (lookup e.fingerprint cache ≡ some entry)
    × (entry.last_delivered ≡ now)
    × (entry.last_status ≡ e.finding_status)

-- Two events of one fingerprint have one status.
abbrev pub Agrees : Event → List Event → Type 0
Agrees e es = All (λ x. x.fingerprint ≡ e.fingerprint → x.finding_status ≡ e.finding_status) es

abbrev pub IsConsistent : List Event → Type 0
IsConsistent [] = Unit
IsConsistent (e ∷ es) = Agrees e es × IsConsistent es

pub update_cache-IsReserved_self :
    (cache : Cache) (now : Time) (e : Event) → IsReserved (update_cache cache e now) now e
unfolding update_cache
update_cache-IsReserved_self cache now e = (
  entry_of e now,
  ground (
    arith,
    lookup-insert e.fingerprint e.fingerprint (entry_of e now) cache,
    eq_iff e.fingerprint e.fingerprint,
  ),
  refl,
  refl,
)

pub update_cache-IsReserved :
    (cache : Cache) (now : Time) (x e : Event)
    → (x.fingerprint ≡ e.fingerprint → x.finding_status ≡ e.finding_status)
    → IsReserved cache now e
    → IsReserved (update_cache cache x now) now e
unfolding update_cache
update_cache-IsReserved cache now x e agree (entry, found, at, status) =
    let here = lookup-insert x.fingerprint e.fingerprint (entry_of x now) cache in
    elim (Bool-cases (str_eq x.fingerprint e.fingerprint)) [
      | inl same ↦ (
        entry_of x now,
        rw (here, same),
        refl,
        agree ((eq_iff x.fingerprint e.fingerprint).0 same),
      )
      | inr other ↦ (entry, rw (here, other) found, at, status)
    ]

module _ (now : Time) (window : ℕ) where
  reserve-IsReserved :
      (cache : Cache) (es : List Event) (e : Event)
      → Agrees e es
      → IsReserved cache now e
      → IsReserved (reserve now window cache es).0 now e
  unfolding reserve
  reserve-IsReserved cache [] e agree r = r
  reserve-IsReserved cache (x ∷ es) e (agree, rest) r =
      elim (Bool-cases (should_emit cache x now window)) [
        | inl emit ↦
            rw (emit, reserve)
              (reserve-IsReserved (update_cache cache x now) es e rest
                (update_cache-IsReserved cache now x e agree r))
        | inr hold ↦ rw (hold, reserve) (reserve-IsReserved cache es e rest r)
      ]

  pub reserve-All :
      (cache : Cache) (es : List Event)
      → IsConsistent es
      → All (IsReserved (reserve now window cache es).0 now) (reserve now window cache es).1
  unfolding reserve
  reserve-All cache [] h = tt
  reserve-All cache (e ∷ es) (agree, h) = elim (Bool-cases (should_emit cache e now window)) [
    | inl emit ↦
        rw (emit, reserve)
          (
            reserve-IsReserved (update_cache cache e now) es e agree
                (update_cache-IsReserved_self cache now e),
            reserve-All (update_cache cache e now) es h,
          )
    | inr hold ↦ rw (hold, reserve) (reserve-All cache es h)
  ]

  pub reserve-IsWellFormed :
      (cache : Cache) (es : List Event)
      → IsWellFormed cache
      → IsWellFormed (reserve now window cache es).0
  unfolding reserve update_cache
  reserve-IsWellFormed cache [] w = w
  reserve-IsWellFormed cache (e ∷ es) w = elim (Bool-cases (should_emit cache e now window)) [
    | inl emit ↦
        rw (emit, reserve)
          (reserve-IsWellFormed (update_cache cache e now) es
            (insert-IsWellFormed e.fingerprint (entry_of e now) cache refl w))
    | inr hold ↦ rw (hold, reserve) (reserve-IsWellFormed cache es w)
  ]

  pub prune-IsReserved :
      (cache : Cache) (e : Event)
      → IsReserved cache now e
      → IsReserved (prune_expired cache now window) now e
  unfolding prune_expired
  prune-IsReserved cache e (entry, found, at, status) =
      let kept : not (is_expired now window entry) ≡ true = rw at (ground arith) in
      (
        entry,
        rw (lookup-retain (λ x. not (is_expired now window x)) e.fingerprint cache, found)
            (rw kept),
        at,
        status,
      )

abbrev pub or_else : Option DedupEntry → Option DedupEntry → Option DedupEntry
or_else none b = b
or_else (some a) b = some a

pub lookup-from_disk :
    (fp : String) (cache merged : Cache)
    → IsWellFormed cache
    → lookup fp (from_disk merged (values cache)) ≡ or_else (lookup fp cache) (lookup fp merged)
unfolding from_disk lookup
lookup-from_disk fp [] merged w = refl
lookup-from_disk fp ((k, entry) ∷ cache) merged w =
    let key = w.keyed.0 in
    let rest : IsWellFormed cache = record { keyed = w.keyed.1; distinct = w.distinct.1 } in
    let ih = lookup-from_disk fp cache (insert entry.fingerprint entry merged) rest in
    let here = lookup-insert entry.fingerprint fp entry merged in
    let same_key : str_eq entry.fingerprint fp ≡ str_eq k fp = ap (λ z. str_eq z fp) key in
    rw (ih, here, same_key)
      (elim (Bool-cases (str_eq k fp)) [
        | inl same ↦ rw (same, ← (eq_iff k fp).0 same, w.distinct.0)
        | inr other ↦ rw other
      ])

-- What `Filter` did on success, in one equation.
pub filter_succeeds :
    (env : DedupEnv) (d : Deduplicator) (file : List DedupEntry) (events : List Event)
    → env.lock ≡ none
    → env.read ≡ none
    → env.write ≡ none
    → (((filter env d file events).result)
        ≡ (reserve env.now (window_duration d) (reload_and_merge file d.cache) events).1)
      × ((filter env d file events).file
          ≡ values (
              prune_expired
                (reserve env.now (window_duration d) (reload_and_merge file d.cache) events).0
                env.now
                (window_duration d)))
unfolding filter
filter_succeeds env d file events l r w = (ground (arith, l, r, w), ground (arith, l, r, w))

-- Every entry in memory is older than a time.
abbrev pub IsOlder : Cache → Time → Type 0
IsOlder cache now =
    (fp : String) (x : DedupEntry) → lookup fp cache ≡ some x → x.last_delivered < now

pub merged-IsReserved :
    (written cache : Cache) (now : Time) (e : Event)
    → IsWellFormed written
    → IsWellFormed cache
    → IsOlder cache now
    → IsReserved written now e
    → IsReserved (reload_and_merge (values written) cache) now e
unfolding reload_and_merge lookup
merged-IsReserved written cache now e ww wc older (entry, found, at, status) =
    let disk = lookup-from_disk e.fingerprint written [] ww in
    let merge =
      lookup-merge_memory e.fingerprint (from_disk [] (values written)) cache wc.distinct in
    (
      entry,
      rw (merge, disk, found)
          (elim (Option-cases (lookup e.fingerprint cache)) [
            | inl missing ↦ rw missing
            | inr (x, there) ↦ rw there (ground (arith, older e.fingerprint x there))
          ]),
      at,
      status,
    )
