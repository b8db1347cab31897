-- ===== src/Siem/Converter/Laws.antt =====
-- What the conversion of findings keeps (pkg/siem/converter.go).
use basecheck_agent.Prelude.{
  String, ◌≡◌, refl, ap, ◌∙◌, List, [], ◌∷◌, map, All, All-append, ℕ, Bool-cases, inl, inr, true,
  arith, eq_iff, none, str_eq,
}
use basecheck_agent.Prelude.Dict.{Dict, lookup, insert}
use basecheck_agent.Siem.Event.{Time, Event, event_type_created, finding_status_open}
use basecheck_agent.Siem.Event.Identity.{set_fingerprint, event_fingerprint}
use basecheck_agent.Siem.Event.Laws.{OneOf, severities}
use basecheck_agent.Siem.Context.{FindingContext}
use basecheck_agent.Siem.Converter.{
  Field, Value, field, row, Finding, ProcedureResult, ControlResult, is_actionable_status,
  map_severity, map_finding_status, extract_nested_row_evidence, flat, source_of,
  normalize_evidence_keys, evidence_from, build_evidence, convert_finding, convert_procedures,
  convert_findings,
}

-- The keys of a row under a change of their case.
abbrev pub rekeyed : (String → String) → Dict Field → Dict Field
rekeyed case [] = []
rekeyed case ((k, v) ∷ fields) = (case k, v) ∷ rekeyed case fields

-- A row as it stands in flat evidence.
abbrev pub as_values : Dict Field → Dict Value
as_values [] = []
as_values ((k, v) ∷ fields) = (k, field v) ∷ as_values fields

flat-as_values : (r : Dict Field) → flat (as_values r) ≡ r
unfolding flat
flat-as_values [] = refl
flat-as_values ((k, v) ∷ r) = ap (λ fields. (k, v) ∷ fields) (flat-as_values r)

no_nested_row : (r : Dict Field) → extract_nested_row_evidence (as_values r) ≡ none
unfolding extract_nested_row_evidence lookup
no_nested_row [] = refl
no_nested_row ((k, v) ∷ r) = elim (Bool-cases (str_eq k "row")) [
  | inl h ↦ rw (h, extract_nested_row_evidence) refl
  | inr h ↦ rw (h, extract_nested_row_evidence) (no_nested_row r)
]

source_of-as_values : (r : Dict Field) → source_of (as_values r) ≡ r
source_of-as_values r = rw (no_nested_row r, source_of) (flat-as_values r)

source_of-nested : (r : Dict Field) (ev : Dict Value) → source_of (("row", row r) ∷ ev) ≡ r
unfolding extract_nested_row_evidence lookup
source_of-nested r ev = refl

module _ (to_lower case : String → String)
    (same_folded : (k : String) → to_lower (case k) ≡ to_lower k) where
  normalize_evidence_keys-rekeyed :
      (normalized r : Dict Field)
      → normalize_evidence_keys to_lower normalized (rekeyed case r)
        ≡ normalize_evidence_keys to_lower normalized r
  unfolding normalize_evidence_keys
  normalize_evidence_keys-rekeyed normalized [] = refl
  normalize_evidence_keys-rekeyed normalized ((k, v) ∷ r) =
      ap (λ key. normalize_evidence_keys to_lower (insert key v normalized) (rekeyed case r))
        (same_folded k)
      ∙ normalize_evidence_keys-rekeyed (insert (to_lower k) v normalized) r

  build_evidence-nested :
      (f : Finding) (r : Dict Field) (ev : Dict Value)
      → build_evidence to_lower (record f { evidence = ("row", row (rekeyed case r)) ∷ ev })
        ≡ build_evidence to_lower (record f { evidence = as_values r })
  unfolding build_evidence evidence_from
  build_evidence-nested f r ev =
      let nested = source_of-nested (rekeyed case r) ev in
      let plain = source_of-as_values r in
      let keys = normalize_evidence_keys-rekeyed [] r in rw (nested, plain, keys) refl

  -- An event is the same, fingerprint included, whether its evidence is flat or nested under "row",
  -- and whatever the case of the columns' names, where `case` only changes what `to_lower` forgets.
  pub convert_finding-nested :
      (normalize : String → String) (bytes : String → List ℕ) (digest : List ℕ → String)
      (ctx : FindingContext) (now : Time) (result : ControlResult) (proc : ProcedureResult)
      (f : Finding) (r : Dict Field) (ev : Dict Value)
      → convert_finding to_lower normalize bytes digest ctx now result proc
          (record f { evidence = ("row", row (rekeyed case r)) ∷ ev })
        ≡ convert_finding to_lower normalize bytes digest ctx now result proc
            (record f { evidence = as_values r })
  unfolding convert_finding
  convert_finding-nested normalize bytes digest ctx now result proc f r ev =
      let same = build_evidence-nested f r ev in rw same refl

module _ (to_lower normalize : String → String) (bytes : String → List ℕ) (digest : List ℕ → String)
    (ctx : FindingContext) (now : Time) where
  -- A new, open finding with a known severity, under its own fingerprint.
  pub record IsOpened (e : Event) : Type 0 where
    pub created : e.event_type ≡ event_type_created
    pub is_open : e.finding_status ≡ finding_status_open
    pub ranked : OneOf e.severity severities
    pub identified : e.fingerprint ≡ event_fingerprint normalize bytes digest e

  map_severity-OneOf : (severity : String) → OneOf (map_severity severity) severities
  unfolding map_severity
  map_severity-OneOf severity = ground arith

  map_finding_status-open :
      (status : String)
      → is_actionable_status status ≡ true
      → map_finding_status status ≡ finding_status_open
  unfolding map_finding_status
  map_finding_status-open status h = ground (
    arith,
    h,
    eq_iff "PASS" "FAIL",
    eq_iff "PASS" "REVIEW",
    eq_iff "PASS" "LICENSE",
    eq_iff status "PASS",
    eq_iff status "FAIL",
    eq_iff status "REVIEW",
    eq_iff status "LICENSE",
  )

  convert_finding-IsOpened :
      (result : ControlResult) (proc : ProcedureResult) (f : Finding)
      → is_actionable_status proc.status ≡ true
      → IsOpened (convert_finding to_lower normalize bytes digest ctx now result proc f)
  unfolding convert_finding set_fingerprint event_fingerprint
  convert_finding-IsOpened result proc f h = record {
    created = refl;
    is_open = map_finding_status-open proc.status h;
    ranked = map_severity-OneOf f.severity;
    identified = refl;
  }

  map-IsOpened :
      (result : ControlResult) (proc : ProcedureResult) (fs : List Finding)
      → is_actionable_status proc.status ≡ true
      → All IsOpened
          (map (λ f. convert_finding to_lower normalize bytes digest ctx now result proc f) fs)
  map-IsOpened result proc [] h = tt
  map-IsOpened result proc (f ∷ fs) h =
      (convert_finding-IsOpened result proc f h, map-IsOpened result proc fs h)

  convert_procedures-IsOpened :
      (result : ControlResult) (procs : List ProcedureResult)
      → All IsOpened (convert_procedures to_lower normalize bytes digest ctx now result procs)
  unfolding convert_procedures
  convert_procedures-IsOpened result [] = tt
  convert_procedures-IsOpened result (proc ∷ procs) =
      let rest = convert_procedures-IsOpened result procs in
      elim (Bool-cases (is_actionable_status proc.status)) [
        | inl h ↦ rw h (All-append IsOpened _ _ (map-IsOpened result proc proc.findings h) rest)
        | inr h ↦ rw h rest
      ]

  -- Every event that comes of a run's results is a created one of an open finding, with one of the
  -- five severities and with the fingerprint of its own evidence.
  pub convert_findings-IsOpened :
      (results : List ControlResult)
      → All IsOpened (convert_findings to_lower normalize bytes digest ctx now results)
  unfolding convert_findings
  convert_findings-IsOpened [] = tt
  convert_findings-IsOpened (result ∷ results) =
      All-append IsOpened _ _ (convert_procedures-IsOpened result result.procedures)
        (convert_findings-IsOpened results)
