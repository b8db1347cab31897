-- ===== src/Siem/Dedup/Decision.antt =====
-- When an event is suppressed, which findings count as remediated, and how the two fit together
-- (`shouldEmit`, `DetermineLifecycle`, `DetectRemediations` of pkg/siem/dedup.go).
use basecheck_agent.Prelude.{
  ℕ, ◌+◌, ◌≤◌, ◌≡◌, ◌≢◌, ◌↔◌, ◌⊎◌, inl, inr, refl, subst, String, Bool, true, false, Option, none,
  some, List, [], ◌∷◌, if◌then◌else◌, str_eq, eq_iff, arith, Bool-cases,
}
use basecheck_agent.Prelude.Dict.{lookup, IsDistinct}
use basecheck_agent.Siem.Event.{
  Time, Event, event_type_remediated, event_type_regressed, event_type_updated,
  finding_status_remediated,
}
use basecheck_agent.Siem.Context.{FindingContext}
use basecheck_agent.Siem.Dedup.{DedupEntry, Cache, should_emit, should_emit_over}
use basecheck_agent.Siem.Dedup.Lifecycle.{
  lifecycle_over, is_remediated, detect_remediations, remediation_event,
}

-- The event repeats what was emitted within the window.
pub record IsDuplicate (entry : DedupEntry) (e : Event) (now : Time) (window : ℕ) : Type 0 where
  pub recent : now ≤ entry.last_delivered + window
  pub same_status : e.finding_status ≡ entry.last_status
  pub not_remediated : e.event_type ≢ event_type_remediated
  pub not_regressed : e.event_type ≢ event_type_regressed
  pub not_updated : e.event_type ≢ event_type_updated

IsDuplicate-iff :
    (entry : DedupEntry) (e : Event) (now : Time) (window : ℕ)
    → (should_emit_over (some entry) e now window ≡ false) ↔ IsDuplicate entry e now window
unfolding should_emit_over
IsDuplicate-iff entry e now window = ground (
  arith,
  eq_iff e.finding_status entry.last_status,
  eq_iff e.event_type "remediated",
  eq_iff e.event_type "regressed",
  eq_iff e.event_type "updated",
)

IsDuplicate-over_iff :
    (o : Option DedupEntry) (e : Event) (now : Time) (window : ℕ)
    → (should_emit_over o e now window ≡ false)
      ↔ ((entry : DedupEntry) × (o ≡ some entry) × IsDuplicate entry e now window)
unfolding should_emit_over
IsDuplicate-over_iff none e now window = (λ h. cc, λ (x, p, _). cc)
IsDuplicate-over_iff (some entry) e now window = (
  λ h. (entry, refl, (IsDuplicate-iff entry e now window).0 h),
  λ (x, p, d).
      let same : x ≡ entry = cc in
      (IsDuplicate-iff entry e now window).1 (subst (λ y. IsDuplicate y e now window) same d),
)

-- An event is suppressed exactly when its fingerprint was emitted within the window with the same
-- status, and its type is none of remediated, regressed and updated.
pub should_emit-eq-false_iff :
    (cache : Cache) (e : Event) (now : Time) (window : ℕ)
    → (should_emit cache e now window ≡ false) ↔ (
        (entry : DedupEntry) × (lookup e.fingerprint cache ≡ some entry)
        × IsDuplicate entry e now window)
unfolding should_emit
should_emit-eq-false_iff cache e now window =
    IsDuplicate-over_iff (lookup e.fingerprint cache) e now window

lifecycle_over-fingerprint :
    (o : Option DedupEntry) (e : Event) → (lifecycle_over o e).fingerprint ≡ e.fingerprint
unfolding lifecycle_over
lifecycle_over-fingerprint none e = refl
lifecycle_over-fingerprint (some entry) e = ground arith

-- A finding that was remediated and is back passes the filter at any time.
pub regression_emitted :
    (cache : Cache) (entry : DedupEntry) (e : Event) (now : Time) (window : ℕ)
    → lookup e.fingerprint cache ≡ some entry
    → entry.last_status ≡ finding_status_remediated
    → should_emit cache (lifecycle_over (lookup e.fingerprint cache) e) now window ≡ true
unfolding should_emit should_emit_over lifecycle_over
regression_emitted cache entry e now window found fixed =
    let test : str_eq entry.last_status finding_status_remediated ≡ true =
      (eq_iff entry.last_status finding_status_remediated).1 fixed in
    rw (lifecycle_over-fingerprint (lookup e.fingerprint cache) e, found, test, lifecycle_over)
      (ground arith)

module _ (now : Time) (window : ℕ) (system_id : String) (current executed : String → Bool)
    (ctx : FindingContext) where
  -- The finding of an entry is gone: it was open, on this system and within the window, its control
  -- ran, and the run does not report it.
  pub record IsFixed (fp : String) (entry : DedupEntry) : Type 0 where
    pub here : entry.system_id ≡ system_id
    pub open_before : entry.last_status ≢ finding_status_remediated
    pub recent : now ≤ entry.last_delivered + window
    pub ran : executed entry.control_code ≡ true
    pub absent : current fp ≡ false

  is_remediated_iff :
      (fp : String) (entry : DedupEntry)
      → (is_remediated now window system_id current executed ctx fp entry ≡ true) ↔ IsFixed fp entry
  unfolding is_remediated
  is_remediated_iff fp entry =
      ground (arith, eq_iff entry.system_id system_id, eq_iff entry.last_status "remediated")

  -- One of the events has that fingerprint.
  abbrev pub Reports : String → List Event → Type 0
  Reports fp [] = ⊥
  Reports fp (e ∷ es) = (e.fingerprint ≡ fp) ⊎ Reports fp es

  found_same :
      (k : String) (entry : DedupEntry) (cache : Cache) (rest : List Event)
      → lookup k cache ≡ none
      → Reports k rest ↔ ((x : DedupEntry) × (lookup k cache ≡ some x) × IsFixed k x)
      → Reports k (
          if is_remediated now window system_id current executed ctx k entry
          then remediation_event now system_id ctx k entry ∷ rest
          else rest)
        ↔ ((x : DedupEntry) × (◌≡◌ {A = Option DedupEntry} (some entry) (some x)) × IsFixed k x)
  unfolding remediation_event
  found_same k entry cache rest fresh ih =
      let known = is_remediated_iff k entry in
      elim (Bool-cases (is_remediated now window system_id current executed ctx k entry)) [
        | inl fixed ↦ rw fixed (λ _. (entry, refl, known.0 fixed), λ _. inl refl)
        | inr kept ↦ rw kept (
          λ r. let (x, found, f) = ih.0 r in cc,
          λ (x, p, f).
              let same : x ≡ entry = cc in
              let fixed : is_remediated now window system_id current executed ctx k entry ≡ true =
                known.1 (subst (λ y. IsFixed k y) same f) in
              cc,
        )
      ]

  found_other :
      (k fp : String) (entry : DedupEntry) (rest : List Event)
      → (k ≡ fp → ⊥)
      → Reports fp (
          if is_remediated now window system_id current executed ctx k entry
          then remediation_event now system_id ctx k entry ∷ rest
          else rest)
        ↔ Reports fp rest
  unfolding remediation_event
  found_other k fp entry rest other =
      elim (Bool-cases (is_remediated now window system_id current executed ctx k entry)) [
        | inl fixed ↦ rw fixed (λ r. elim r [ inl e ↦ absurd (other e) | inr r' ↦ r' ], λ r. inr r)
        | inr kept ↦ rw kept (λ r. r, λ r. r)
      ]

  -- A remediation is reported for a fingerprint exactly when the cache has an entry for it whose
  -- finding is gone.
  pub detect_remediations_iff :
      (cache : Cache) (fp : String)
      → IsDistinct cache
      → Reports fp (detect_remediations now window system_id current executed ctx cache)
        ↔ ((entry : DedupEntry) × (lookup fp cache ≡ some entry) × IsFixed fp entry)
  unfolding detect_remediations lookup
  detect_remediations_iff [] fp h = (λ r. absurd r, λ (entry, found, _). cc)
  detect_remediations_iff ((k, entry) ∷ cache) fp (fresh, h) =
      let rest = detect_remediations now window system_id current executed ctx cache in
      elim (Bool-cases (str_eq k fp)) [
        | inl same ↦
            rw (same, ← (eq_iff k fp).0 same)
              (found_same k entry cache rest fresh (detect_remediations_iff cache k h))
        | inr other ↦
            let ih = detect_remediations_iff cache fp h in
            let to = found_other k fp entry rest (λ e. let t = (eq_iff k fp).1 e in cc) in
            rw other (λ r. ih.0 (to.0 r), λ x. to.1 (ih.1 x))
      ]
