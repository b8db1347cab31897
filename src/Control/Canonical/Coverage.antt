-- ===== src/Control/Canonical/Coverage.antt =====
-- What the signature of a control set covers (pkg/controlset/fetcher.go).
use basecheck_agent.Prelude.{◌≡◌, refl, sym, ap, ◌∙◌, subst, List, [], ◌∷◌, map, if◌then◌else◌}
use mathlib.Core.List.{Memᴰ}
use mathlib.Core.List.Permᴰ
use basecheck_agent.Prelude.Reorder.{Memᴰ-Permᴰ, Memᴰ-map, map_inv}
use basecheck_agent.Text.{Text, text, is_empty, trim_space}
use basecheck_agent.Text.Order.{sort_by}
use basecheck_agent.Text.Order.Sort.{sort_by-perm}
use basecheck_agent.Control.Canonical.{
  ControlCriteria, canonical_criteria, trimmed_or, default_execution_mode, ControlProcedure,
  Evidence, Control, ControlSet, CanonicalProcedure, CanonicalControl, CanonicalControlSet,
  canonical_procedure, procedure_key, canonical_procedures, canonical_evidence, evidence_key,
  canonical_evidence_capture, canonical_control, control_key, canonical_controls,
  canonical_control_set,
}

-- Sorted lists of one form hold the same items.
sorted_mem {ℓ κ} :
    {A : Type ℓ} {B : Type κ} (f : A → B) (key : A → List Text) (xs ys : List A) (x : A)
    → map f (sort_by key xs) ≡ map f (sort_by key ys)
    → Memᴰ x xs
    → (y : A) × Memᴰ y ys × (f y ≡ f x)
sorted_mem f key xs ys x e m =
    let there = Memᴰ-map f (Memᴰ-Permᴰ (sort_by-perm key xs) m) in
    let (y, n, same) = map_inv f (f x) (sort_by key ys) (subst (Memᴰ (f x)) e there) in
    (y, Memᴰ-Permᴰ (Permᴰ.symm (sort_by-perm key ys)) n, same)

-- How a criterion judges: its condition, its severity and the title of its findings.
abbrev pub judgement : ControlCriteria → Text × (Text × Text)
judgement c = (trim_space c.condition, (trim_space c.severity, trim_space c.finding_title))

-- What runs of a procedure: its code, the way and the system in which it runs, and its judgements.
pub record Test : Type 0 where
  pub code : Text
  pub mode : Text
  pub system_type : Text
  pub system_applicability : Text
  pub judgements : List (Text × (Text × Text))

abbrev pub test_of : ControlProcedure → Test
test_of p = record {
  code = trim_space p.tests;
  mode = if is_empty (trim_space p.execution_mode) then text "sql" else trim_space p.execution_mode;
  system_type = trim_space p.system_type;
  system_applicability = trim_space p.system_applicability;
  judgements = map judgement p.criteria;
}

-- What is asked for a piece of evidence: a query, the kind of it, and where it is read from.
abbrev pub query_of : Evidence → Text × (Text × (Text × Text))
query_of e =
    (trim_space e.sql, (trim_space e.type, (trim_space e.source_mode, trim_space e.source_path)))

pub record RunsIn (test : Test) (s : ControlSet) : Type 0 where
  pub control : Control
  pub in_set : Memᴰ control s.controls
  pub procedure : ControlProcedure
  pub in_control : Memᴰ procedure control.procedures
  pub runs : test_of procedure ≡ test

pub record CapturesIn (query : Text × (Text × (Text × Text))) (s : ControlSet) : Type 0 where
  pub control : Control
  pub in_set : Memᴰ control s.controls
  pub evidence : Evidence
  pub in_control : Memᴰ evidence control.evidence_capture
  pub asks : query_of evidence ≡ query

-- A criterion's judgement, where its texts are trimmed.
abbrev signed_judgement : ControlCriteria → Text × (Text × Text)
signed_judgement c = (c.condition, (c.severity, c.finding_title))

judgements-canonical_criteria :
    (xs : List ControlCriteria) → map judgement xs ≡ map signed_judgement (canonical_criteria xs)
unfolding canonical_criteria
judgements-canonical_criteria [] = refl
judgements-canonical_criteria (x ∷ xs) =
    ap (λ js. judgement x ∷ js) (judgements-canonical_criteria xs)

abbrev signed_test : CanonicalProcedure → Test
signed_test k = record {
  code = k.tests;
  mode = k.execution_mode;
  system_type = k.system_type;
  system_applicability = k.system_applicability;
  judgements = map signed_judgement k.criteria;
}

-- What is signed of a procedure says what runs.
test_of-canonical_procedure :
    (p q : ControlProcedure) → canonical_procedure p ≡ canonical_procedure q → test_of p ≡ test_of q
unfolding default_execution_mode
test_of-canonical_procedure p q e =
    let judged : (r : ControlProcedure) → test_of r ≡ signed_test (canonical_procedure r) = λ r.
      ap
        (λ js. record {
          code = trim_space r.tests;
          mode = trimmed_or (text "sql") r.execution_mode;
          system_type = trim_space r.system_type;
          system_applicability = trim_space r.system_applicability;
          judgements = js;
        })
        (judgements-canonical_criteria r.criteria) in
    judged p ∙ (ap signed_test e ∙ sym (judged q))

query_of-canonical_evidence :
    (p q : Evidence) → canonical_evidence p ≡ canonical_evidence q → query_of p ≡ query_of q
query_of-canonical_evidence p q e =
    ap (λ (k : Evidence). (k.sql, (k.type, (k.source_mode, k.source_path)))) e

same_controls :
    (s t : ControlSet)
    → canonical_control_set s ≡ canonical_control_set t
    → canonical_controls s.controls ≡ canonical_controls t.controls
unfolding canonical_control_set
same_controls s t e = ap (λ (c : CanonicalControlSet). c.controls) e

same_control :
    (s t : ControlSet) (c : Control)
    → canonical_control_set s ≡ canonical_control_set t
    → Memᴰ c s.controls
    → (d : Control) × Memᴰ d t.controls × (canonical_control d ≡ canonical_control c)
unfolding canonical_controls
same_control s t c e m =
    sorted_mem canonical_control control_key s.controls t.controls c (same_controls s t e) m

same_procedure :
    (c d : Control) (p : ControlProcedure)
    → canonical_control d ≡ canonical_control c
    → Memᴰ p c.procedures
    → (q : ControlProcedure) × Memᴰ q d.procedures × (canonical_procedure q ≡ canonical_procedure p)
unfolding canonical_control canonical_procedures
same_procedure c d p e m =
    sorted_mem canonical_procedure procedure_key c.procedures d.procedures p
      (sym (ap (λ (k : CanonicalControl). k.procedures) e)) m

same_evidence :
    (c d : Control) (p : Evidence)
    → canonical_control d ≡ canonical_control c
    → Memᴰ p c.evidence_capture
    → (q : Evidence) × Memᴰ q d.evidence_capture × (canonical_evidence q ≡ canonical_evidence p)
unfolding canonical_control canonical_evidence_capture
same_evidence c d p e m =
    let before = sort_by-perm evidence_key (map canonical_evidence c.evidence_capture) in
    let after = sort_by-perm evidence_key (map canonical_evidence d.evidence_capture) in
    let same = sym (ap (λ (k : CanonicalControl). k.evidence_capture) e) in
    let there = Memᴰ-Permᴰ before (Memᴰ-map canonical_evidence m) in
    map_inv canonical_evidence (canonical_evidence p) d.evidence_capture
      (Memᴰ-Permᴰ (Permᴰ.symm after) (subst (Memᴰ (canonical_evidence p)) same there))

-- Two control sets with one signed form run the same tests, up to order and to the spaces around a
-- text: what is executed, how, and by which criteria it is judged; and they capture the same
-- evidence. So neither can be changed without another signature.
pub canonical_control_set-RunsIn :
    (s t : ControlSet) (test : Test) (query : Text × (Text × (Text × Text)))
    → canonical_control_set s ≡ canonical_control_set t
    → (RunsIn test s → RunsIn test t) × (CapturesIn query s → CapturesIn query t)
canonical_control_set-RunsIn s t test query e = (
  λ r.
      let (d, in_set, same) = same_control s t r.control e r.in_set in
      let (q, in_control, signed) = same_procedure r.control d r.procedure same r.in_control in
      record {
        control = d;
        in_set = in_set;
        procedure = q;
        in_control = in_control;
        runs = test_of-canonical_procedure q r.procedure signed ∙ r.runs;
      },
  λ r.
      let (d, in_set, same) = same_control s t r.control e r.in_set in
      let (q, in_control, signed) = same_evidence r.control d r.evidence same r.in_control in
      record {
        control = d;
        in_set = in_set;
        evidence = q;
        in_control = in_control;
        asks = query_of-canonical_evidence q r.evidence signed ∙ r.asks;
      },
)
