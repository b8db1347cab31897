-- ===== src/Siem/Dedup/Laws.antt =====
-- The cache of the deduplicator through its operations (pkg/siem/dedup.go).
use basecheck_agent.Prelude.{
  ℕ, ◌≡◌, inl, inr, refl, String, Bool, Option, none, some, List, [], ◌∷◌, str_eq, eq_iff, arith,
  Bool-cases, Option-cases,
}
use basecheck_agent.Prelude.Dict.{
  lookup, insert, delete, retain, lookup-insert, lookup-delete, lookup-retain, IsDistinct,
}
use basecheck_agent.Siem.Event.{Time}
use basecheck_agent.Siem.Dedup.{DedupEntry, Cache, prune_expired}
use basecheck_agent.Siem.Dedup.Store.{newest_of, merge_memory, from_disk, reload_and_merge}

-- Of two entries the newer, the second on a tie.
abbrev pub newest : Option DedupEntry → Option DedupEntry → Option DedupEntry
newest a none = a
newest a (some entry) = some (newest_of a entry)

-- Merging loses nothing that is newer: whatever the two caches hold for a fingerprint, the newer
-- entry is in the result, and that in memory on a tie, if the cache in memory has at most one entry
-- for each fingerprint.
pub lookup-merge_memory :
    (fp : String) (merged cache : Cache)
    → IsDistinct cache
    → lookup fp (merge_memory merged cache) ≡ newest (lookup fp merged) (lookup fp cache)
unfolding merge_memory lookup
lookup-merge_memory fp merged [] h = refl
lookup-merge_memory fp merged ((k, entry) ∷ cache) (fresh, h) =
    let ih = lookup-merge_memory fp (insert k (newest_of (lookup k merged) entry) merged) cache h in
    let here = lookup-insert k fp (newest_of (lookup k merged) entry) merged in
    elim (Bool-cases (str_eq k fp)) [
      | inl same ↦ rw (ih, here, same, ← (eq_iff k fp).0 same, fresh)
      | inr other ↦ rw (ih, here, other)
    ]

-- The entry under a key bears that key.
abbrev pub IsKeyed : Cache → Type 0
IsKeyed [] = Unit
IsKeyed ((fp, entry) ∷ cache) = (entry.fingerprint ≡ fp) × IsKeyed cache

insert-IsKeyed :
    (fp : String) (entry : DedupEntry) (cache : Cache)
    → entry.fingerprint ≡ fp
    → IsKeyed cache
    → IsKeyed (insert fp entry cache)
unfolding insert
insert-IsKeyed fp entry [] e h = (e, tt)
insert-IsKeyed fp entry ((k, x) ∷ cache) e (q, h) =
    ground (arith, eq_iff k fp, insert-IsKeyed fp entry cache e h)

insert-IsDistinct :
    (fp : String) (entry : DedupEntry) (cache : Cache)
    → IsDistinct cache
    → IsDistinct (insert fp entry cache)
unfolding insert lookup
insert-IsDistinct fp entry [] h = (refl, tt)
insert-IsDistinct fp entry ((k, x) ∷ cache) (q, h) = ground (
  arith,
  eq_iff k fp,
  eq_iff fp k,
  lookup-insert fp k entry cache,
  insert-IsDistinct fp entry cache h,
)

delete-IsKeyed : (fp : String) (cache : Cache) → IsKeyed cache → IsKeyed (delete fp cache)
unfolding delete
delete-IsKeyed fp [] h = tt
delete-IsKeyed fp ((k, x) ∷ cache) (q, h) = ground (arith, delete-IsKeyed fp cache h)

delete-IsDistinct : (fp : String) (cache : Cache) → IsDistinct cache → IsDistinct (delete fp cache)
unfolding delete lookup
delete-IsDistinct fp [] h = tt
delete-IsDistinct fp ((k, x) ∷ cache) (q, h) =
    ground (arith, lookup-delete fp k cache, delete-IsDistinct fp cache h)

retain-IsKeyed : (p : DedupEntry → Bool) (cache : Cache) → IsKeyed cache → IsKeyed (retain p cache)
unfolding retain
retain-IsKeyed p [] h = tt
retain-IsKeyed p ((k, x) ∷ cache) (q, h) =
    ground (arith, retain-IsKeyed p cache h, delete-IsKeyed k (retain p cache))

retain-IsDistinct :
    (p : DedupEntry → Bool) (cache : Cache) → IsDistinct cache → IsDistinct (retain p cache)
unfolding retain lookup
retain-IsDistinct p [] h = tt
retain-IsDistinct p ((k, x) ∷ cache) (q, h) = ground (
  arith,
  lookup-retain p k cache,
  retain-IsDistinct p cache h,
  delete-IsDistinct k (retain p cache),
)

-- Well-formedness of a cache: one entry for each key, under its fingerprint.
pub record IsWellFormed (cache : Cache) : Type 0 where
  pub keyed : IsKeyed cache
  pub distinct : IsDistinct cache

pub insert-IsWellFormed :
    (fp : String) (entry : DedupEntry) (cache : Cache)
    → entry.fingerprint ≡ fp
    → IsWellFormed cache
    → IsWellFormed (insert fp entry cache)
insert-IsWellFormed fp entry cache e w = record {
  keyed = insert-IsKeyed fp entry cache e w.keyed;
  distinct = insert-IsDistinct fp entry cache w.distinct;
}

pub delete-IsWellFormed :
    (fp : String) (cache : Cache) → IsWellFormed cache → IsWellFormed (delete fp cache)
delete-IsWellFormed fp cache w = record {
  keyed = delete-IsKeyed fp cache w.keyed;
  distinct = delete-IsDistinct fp cache w.distinct;
}

pub prune_expired-IsWellFormed :
    (cache : Cache) (now : Time) (window : ℕ)
    → IsWellFormed cache
    → IsWellFormed (prune_expired cache now window)
unfolding prune_expired
prune_expired-IsWellFormed cache now window w = record {
  keyed = retain-IsKeyed _ cache w.keyed;
  distinct = retain-IsDistinct _ cache w.distinct;
}

pub from_disk-IsWellFormed :
    (merged : Cache) (entries : List DedupEntry)
    → IsWellFormed merged
    → IsWellFormed (from_disk merged entries)
unfolding from_disk
from_disk-IsWellFormed merged [] w = w
from_disk-IsWellFormed merged (entry ∷ entries) w =
    from_disk-IsWellFormed (insert entry.fingerprint entry merged) entries
      (insert-IsWellFormed entry.fingerprint entry merged refl w)

lookup-IsKeyed :
    (fp : String) (cache : Cache) (entry : DedupEntry)
    → IsKeyed cache
    → lookup fp cache ≡ some entry
    → entry.fingerprint ≡ fp
unfolding lookup
lookup-IsKeyed fp [] entry h e = cc
lookup-IsKeyed fp ((k, x) ∷ cache) entry (q, h) e = elim (Bool-cases (str_eq k fp)) [
  | inl same ↦ let found : some x ≡ some entry = rw same at e in ground (arith, eq_iff k fp, found)
  | inr other ↦ lookup-IsKeyed fp cache entry h (rw other at e)
]

newest_of-IsKeyed :
    (fp : String) (merged : Cache) (entry : DedupEntry)
    → IsKeyed merged
    → entry.fingerprint ≡ fp
    → (newest_of (lookup fp merged) entry).fingerprint ≡ fp
newest_of-IsKeyed fp merged entry h e = elim (Option-cases (lookup fp merged)) [
  | inl missing ↦ rw missing e
  | inr (x, found) ↦ rw found (ground (arith, lookup-IsKeyed fp merged x h found))
]

pub merge_memory-IsWellFormed :
    (merged cache : Cache)
    → IsKeyed cache
    → IsWellFormed merged
    → IsWellFormed (merge_memory merged cache)
unfolding merge_memory
merge_memory-IsWellFormed merged [] h w = w
merge_memory-IsWellFormed merged ((fp, entry) ∷ cache) (q, h) w =
    merge_memory-IsWellFormed (insert fp (newest_of (lookup fp merged) entry) merged) cache h
      (insert-IsWellFormed fp _ merged (newest_of-IsKeyed fp merged entry w.keyed q) w)

pub reload_and_merge-IsWellFormed :
    (on_disk : List DedupEntry) (cache : Cache)
    → IsWellFormed cache
    → IsWellFormed (reload_and_merge on_disk cache)
unfolding reload_and_merge
reload_and_merge-IsWellFormed on_disk cache w =
    merge_memory-IsWellFormed (from_disk [] on_disk) cache w.keyed
      (from_disk-IsWellFormed [] on_disk (record { keyed = tt; distinct = tt }))
