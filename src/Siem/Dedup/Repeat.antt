-- ===== src/Siem/Dedup/Repeat.antt =====
-- What `Filter` of pkg/siem/dedup.go lets through of events that its cache remembers.
use basecheck_agent.Prelude.{
  ◌∙◌, Bool, ◌||◌, if◌then◌else◌, ℕ, ◌+◌, ◌≤◌, ◌≡◌, inl, inr, refl, sym, ap, true, false, some,
  List, [], ◌∷◌, str_eq, eq_iff, arith, All, Bool-cases,
}
use basecheck_agent.Prelude.Dict.{lookup, lookup-insert}
use basecheck_agent.Siem.Event.{
  Time, Event, event_type_remediated, event_type_regressed, event_type_updated,
}
use basecheck_agent.Siem.Dedup.{
  DedupEntry, Cache, is_expired, update_cache, reserve, entry_of, should_emit, should_emit_over,
}
use basecheck_agent.Siem.Dedup.Filter.{IsReserved, Agrees, IsConsistent}

-- The types that are always emitted.
abbrev is_always_emitted : Event → Bool
is_always_emitted e =
    str_eq e.event_type event_type_remediated
    || (str_eq e.event_type event_type_regressed || str_eq e.event_type event_type_updated)

-- The events of these types, in order.
abbrev pub always_emitted : List Event → List Event
always_emitted [] = []
always_emitted (e ∷ es) = if is_always_emitted e then e ∷ always_emitted es else always_emitted es

-- The cache has an entry for the event that has not expired, with its status.
abbrev IsRemembered : Time → ℕ → Cache → Event → Type 0
IsRemembered now window cache e =
    (entry : DedupEntry) × (lookup e.fingerprint cache ≡ some entry)
    × (is_expired now window entry ≡ false)
    × (entry.last_status ≡ e.finding_status)

remembered_decision :
    (now : Time) (window : ℕ) (cache : Cache) (e : Event)
    → IsRemembered now window cache e
    → should_emit cache e now window ≡ is_always_emitted e
unfolding should_emit should_emit_over
remembered_decision now window cache e (entry, found, fresh, status) =
    let same : str_eq e.finding_status entry.last_status ≡ true =
      (eq_iff e.finding_status entry.last_status).1 (sym status) in
    rw (found, fresh, same) refl

update_cache-IsRemembered :
    (now : Time) (window : ℕ) (cache : Cache) (x : Event) (es : List Event)
    → Agrees x es
    → All (IsRemembered now window cache) es
    → All (IsRemembered now window (update_cache cache x now)) es
unfolding update_cache
update_cache-IsRemembered now window cache x [] agree h = tt
update_cache-IsRemembered now window cache x (e ∷ es) (same_status, agree)
      ((entry, found, fresh, status), h) =
    let here = lookup-insert x.fingerprint e.fingerprint (entry_of x now) cache in
    (
      elim (Bool-cases (str_eq x.fingerprint e.fingerprint)) [
        | inl same ↦ (
          entry_of x now,
          rw (here, same),
          ground arith,
          sym (same_status (sym ((eq_iff x.fingerprint e.fingerprint).0 same))),
        )
        | inr other ↦ (entry, rw (here, other) found, fresh, status)
      ],
      update_cache-IsRemembered now window cache x es agree h,
    )

-- Of events that the cache remembers, those of the types that are always emitted pass, and no others.
pub reserve-remembered :
    (now : Time) (window : ℕ) (cache : Cache) (es : List Event)
    → IsConsistent es
    → All (IsRemembered now window cache) es
    → (reserve now window cache es).1 ≡ always_emitted es
unfolding reserve
reserve-remembered now window cache [] consistent h = refl
reserve-remembered now window cache (e ∷ es) (agree, consistent) (here, h) =
    let decision = remembered_decision now window cache e here in
    elim (Bool-cases (is_always_emitted e)) [
      | inl always ↦
          let kept = update_cache-IsRemembered now window cache e es agree h in
          rw (decision ∙ always, always, reserve)
            (ap (λ r. e ∷ r)
              (reserve-remembered now window (update_cache cache e now) es consistent kept))
      | inr plain ↦
          rw (decision ∙ plain, plain, reserve)
            (reserve-remembered now window cache es consistent h)
    ]

pub All-IsRemembered :
    (cache : Cache) (then' now : Time) (window : ℕ) (es : List Event)
    → All (IsReserved cache then') es
    → now ≤ then' + window
    → All (IsRemembered now window cache) es
All-IsRemembered cache then' now window [] r le = tt
All-IsRemembered cache then' now window (e ∷ es) ((entry, found, at, status), rs) le =
    ((entry, found, rw at (ground arith), status), All-IsRemembered cache then' now window es rs le)

reserve-Agrees :
    (now : Time) (window : ℕ) (cache : Cache) (x : Event) (es : List Event)
    → Agrees x es
    → Agrees x (reserve now window cache es).1
unfolding reserve
reserve-Agrees now window cache x [] h = tt
reserve-Agrees now window cache x (e ∷ es) (here, h) =
    elim (Bool-cases (should_emit cache e now window)) [
      | inl emit ↦
          rw (emit, reserve) (here, reserve-Agrees now window (update_cache cache e now) x es h)
      | inr hold ↦ rw (hold, reserve) (reserve-Agrees now window cache x es h)
    ]

-- What passes gives one status to each fingerprint if the batch does.
pub reserve-IsConsistent :
    (now : Time) (window : ℕ) (cache : Cache) (es : List Event)
    → IsConsistent es
    → IsConsistent (reserve now window cache es).1
unfolding reserve
reserve-IsConsistent now window cache [] h = tt
reserve-IsConsistent now window cache (e ∷ es) (agree, h) =
    let cache' = update_cache cache e now in
    elim (Bool-cases (should_emit cache e now window)) [
      | inl emit ↦
          rw (emit, reserve)
            (
              reserve-Agrees now window cache' e es agree,
              reserve-IsConsistent now window cache' es h,
            )
      | inr hold ↦ rw (hold, reserve) (reserve-IsConsistent now window cache es h)
    ]
