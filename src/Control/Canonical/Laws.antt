-- ===== src/Control/Canonical/Laws.antt =====
-- What the signed representation of a control set forgets, and what it keeps
-- (pkg/controlset/fetcher.go).
use basecheck_agent.Prelude.{◌≡◌, refl, sym, ap, ◌∙◌, List, [], ◌∷◌, map, keep, All}
use mathlib.Core.List.{Permᴰ}
use basecheck_agent.Prelude.Reorder.{map-Permᴰ, keep-Permᴰ}
use basecheck_agent.Text.{Text, trim_space}
use basecheck_agent.Text.Order.{sort_by}
use basecheck_agent.Text.Order.Sort.{IsKeyed, sort_by-Permᴰ, sort_by-map}
use basecheck_agent.Control.Canonical.{
  ControlProcedure, Evidence, Control, ControlSet, CanonicalControl, canonical_procedure,
  procedure_key, canonical_procedures, canonical_evidence, evidence_key, canonical_evidence_capture,
  is_filled, text_key, canonical_string_list, canonical_control, control_key, canonical_controls,
  canonical_compatibility, canonical_control_set,
}

texts-IsKeyed : (l : List Text) → IsKeyed text_key l
texts-IsKeyed [] = tt
texts-IsKeyed (x ∷ l) = (everywhere l, texts-IsKeyed l)
  where
    everywhere : (ys : List Text) → All (λ y. text_key x ≡ text_key y → x ≡ y) ys
    everywhere [] = tt
    everywhere (y ∷ ys) = (λ e. cc, everywhere ys)

-- A list of texts has one signed form, whatever its order.
canonical_string_list-Permᴰ :
    {l₁ l₂ : List Text} → Permᴰ l₁ l₂ → canonical_string_list l₁ ≡ canonical_string_list l₂
unfolding canonical_string_list
canonical_string_list-Permᴰ {l₁} d =
    sort_by-Permᴰ text_key (keep-Permᴰ is_filled (map-Permᴰ trim_space d))
      (texts-IsKeyed (keep is_filled (map trim_space l₁)))

canonical_procedures-Permᴰ :
    {l₁ l₂ : List ControlProcedure}
    → Permᴰ l₁ l₂
    → IsKeyed procedure_key l₁
    → canonical_procedures l₁ ≡ canonical_procedures l₂
unfolding canonical_procedures
canonical_procedures-Permᴰ d k = ap (map canonical_procedure) (sort_by-Permᴰ procedure_key d k)

canonical_evidence_capture-Permᴰ :
    {l₁ l₂ : List Evidence}
    → Permᴰ l₁ l₂
    → IsKeyed evidence_key (map canonical_evidence l₁)
    → canonical_evidence_capture l₁ ≡ canonical_evidence_capture l₂
unfolding canonical_evidence_capture
canonical_evidence_capture-Permᴰ d k = sort_by-Permᴰ evidence_key (map-Permᴰ canonical_evidence d) k

-- A control with its procedures and its evidence in another order, where the IDs of the procedures
-- differ, and so do the queries of the evidence.
pub record IsSameControl (c d : Control) : Type 0 where
  pub rest : d ≡ record c { procedures = d.procedures; evidence_capture = d.evidence_capture }
  pub procedures : Permᴰ c.procedures d.procedures
  pub evidence : Permᴰ c.evidence_capture d.evidence_capture
  pub procedure_keys : IsKeyed procedure_key c.procedures
  pub evidence_keys : IsKeyed evidence_key (map canonical_evidence c.evidence_capture)

abbrev pub AreSame : List Control → List Control → Type 0
AreSame [] [] = Unit
AreSame [] (d ∷ ds) = ⊥
AreSame (c ∷ cs) [] = ⊥
AreSame (c ∷ cs) (d ∷ ds) = IsSameControl c d × AreSame cs ds

-- The key by which a control is sorted, and its signed form.
abbrev keyed_control : Control → List Text × CanonicalControl
keyed_control c = (control_key c, canonical_control c)

keyed_control-same : (c d : Control) → IsSameControl c d → keyed_control c ≡ keyed_control d
unfolding canonical_control
keyed_control-same c d same =
    let key = control_key c in
    let signed = canonical_control c in
    let procedures = canonical_procedures-Permᴰ same.procedures same.procedure_keys in
    let evidence = canonical_evidence_capture-Permᴰ same.evidence same.evidence_keys in
    ap (λ ps. (key, record signed { procedures = ps })) procedures
    ∙ ap
        (λ es. (
          key,
          record signed { procedures = canonical_procedures d.procedures; evidence_capture = es },
        ))
        evidence
    ∙ ap keyed_control (sym same.rest)

map-keyed_control :
    (cs ds : List Control) → AreSame cs ds → map keyed_control cs ≡ map keyed_control ds
map-keyed_control [] [] h = refl
map-keyed_control [] (d ∷ ds) h = absurd h
map-keyed_control (c ∷ cs) [] h = absurd h
map-keyed_control (c ∷ cs) (d ∷ ds) (same, h) =
    ap (λ z. z ∷ map keyed_control cs) (keyed_control-same c d same)
    ∙ ap (λ z. keyed_control d ∷ z) (map-keyed_control cs ds h)

abbrev first_key : List Text × CanonicalControl → List Text
first_key k = k.0

abbrev signed_of : List Text × CanonicalControl → CanonicalControl
signed_of k = k.1

map-signed_of :
    (cs : List Control) → map canonical_control cs ≡ map signed_of (map keyed_control cs)
map-signed_of [] = refl
map-signed_of (c ∷ cs) = ap (λ z. canonical_control c ∷ z) (map-signed_of cs)

-- The signed controls are read off the sorted pairs.
canonical_controls_keyed :
    (cs : List Control)
    → canonical_controls cs ≡ map signed_of (sort_by first_key (map keyed_control cs))
unfolding canonical_controls
canonical_controls_keyed cs =
    map-signed_of (sort_by control_key cs)
    ∙ ap (map signed_of) (sort_by-map control_key first_key keyed_control (λ c. refl) cs)

canonical_controls-Permᴰ :
    {cs ds : List Control}
    → Permᴰ cs ds
    → IsKeyed control_key cs
    → canonical_controls cs ≡ canonical_controls ds
unfolding canonical_controls
canonical_controls-Permᴰ d k = ap (map canonical_control) (sort_by-Permᴰ control_key d k)

canonical_controls-same :
    (cs ds : List Control) → AreSame cs ds → canonical_controls cs ≡ canonical_controls ds
canonical_controls-same cs ds h =
    canonical_controls_keyed cs
    ∙ ap (λ l. map signed_of (sort_by first_key l)) (map-keyed_control cs ds h)
    ∙ sym (canonical_controls_keyed ds)

-- A control set with its controls, their procedures and evidence, its database versions and the
-- privileges that it needs in another order, where no two controls have one code and ID.
pub record IsReordered (s t : ControlSet) : Type 0 where
  pub metadata : t.metadata ≡ record s.metadata { database_versions = t.metadata.database_versions }
  pub versions : Permᴰ s.metadata.database_versions t.metadata.database_versions
  pub compatibility :
      t.compatibility
      ≡ record s.compatibility { requires_privileges = t.compatibility.requires_privileges }
  pub privileges : Permᴰ s.compatibility.requires_privileges t.compatibility.requires_privileges
  pub between : List Control
  pub moved : Permᴰ s.controls between
  pub same : AreSame between t.controls
  pub keys : IsKeyed control_key s.controls

pub canonical_control_set-reordered :
    (s t : ControlSet) → IsReordered s t → canonical_control_set s ≡ canonical_control_set t
unfolding canonical_control_set canonical_compatibility
canonical_control_set-reordered s t r =
    let signed = canonical_control_set s in
    let versions = canonical_string_list-Permᴰ r.versions in
    let privileges = canonical_string_list-Permᴰ r.privileges in
    let controls =
      canonical_controls-Permᴰ r.moved r.keys
      ∙ canonical_controls-same r.between t.controls r.same in
    let metadata = record s.metadata { database_versions = t.metadata.database_versions } in
    let compatibility = record s.compatibility {
      requires_privileges = t.compatibility.requires_privileges;
    } in
    ap (λ vs. record signed { database_versions = vs }) versions
    ∙ ap
        (λ ps. record (canonical_control_set (record s { metadata = metadata })) {
          compatibility = record (canonical_compatibility s.compatibility) {
            requires_privileges = ps;
          };
        })
        privileges
    ∙ ap
        (λ cs.
          record (canonical_control_set
            (record s { metadata = metadata; compatibility = compatibility })) { controls = cs })
        controls
    ∙ ap (λ m. canonical_control_set (record t { metadata = m; compatibility = compatibility }))
        (sym r.metadata)
    ∙ ap (λ c. canonical_control_set (record t { compatibility = c })) (sym r.compatibility)
