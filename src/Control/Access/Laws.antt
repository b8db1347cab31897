-- ===== src/Control/Access/Laws.antt =====
-- What the allow-list of paths lets through (pkg/controlset/executor.go).
use basecheck_agent.Prelude.{
  ℕ, zero, suc, get_elem?, ◌≡◌, refl, ap, sym, ◌∙◌, append_assoc, subst, ◌↔◌, ◌⊎◌, Bool-cases, true,
  false, Option, Option-cases, some, List, [], ◌∷◌, ◌++◌, inl, inr, arith,
}
use basecheck_agent.Text.{
  text, contains, has_prefix, Text, text_eq, is_empty, drop_prefix, trim_space,
}
use basecheck_agent.Text.Laws.{text_eq_iff, drop_prefix_lem, drop_prefix_inv}
use basecheck_agent.Control.Access.{
  ends_in_slash, directory_of, active_validation_path_allowed, canonicalize_active_validation_path,
  authorize_active_validation_path,
}

-- A path that is the directory, or goes on behind it with a new segment.
abbrev pub LiesAt : Text → Text → Type 0
LiesAt directory path =
    (path ≡ directory)
    ⊎ ((rest : Text) × (path ≡ directory ++ rest)
        × ((ends_in_slash directory ≡ true) ⊎ (has_prefix rest (text "/") ≡ true)))

slash_first :
    (directory rest : Text) → (directory ++ text "/") ++ rest ≡ directory ++ (text "/" ++ rest)
slash_first directory rest = append_assoc directory (text "/") rest

below_LiesAt :
    (directory path rest : Text) → path ≡ directory_of directory ++ rest → LiesAt directory path
unfolding drop_prefix
below_LiesAt directory path rest h = elim (Bool-cases (ends_in_slash directory)) [
  | inl y ↦ inr (rest, h ∙ rw y refl, inl y)
  | inr n ↦ inr (text "/" ++ rest, h ∙ rw n (slash_first directory rest), inr refl)
]

LiesAt_below :
    (directory path rest : Text)
    → path ≡ directory ++ rest
    → (ends_in_slash directory ≡ true) ⊎ (has_prefix rest (text "/") ≡ true)
    → ((more : Text) × (path ≡ directory_of directory ++ more))
LiesAt_below directory path rest h s = elim (Bool-cases (ends_in_slash directory)) [
  | inl y ↦ (rest, rw y h)
  | inr n ↦ elim (Option-cases (drop_prefix (text "/") rest)) [
    | inl e ↦ absurd (elim s [ inl y ↦ cc | inr q ↦ ground (arith, e, q) ])
    | inr (more, e) ↦
        let r = drop_prefix_inv (text "/") rest more e in
        (more, rw n (h ∙ ap (λ x. directory ++ x) r ∙ sym (slash_first directory more)))
  ]
]

module _ (clean : Text → Text) where
  -- An entry of the allow-list that a path is, or under which it lies, at the end of a segment.
  pub record IsAdmitted (candidate : Text) (paths : List Text) : Type 0 where
    pub index : ℕ
    pub entry : Text
    pub listed : get_elem? paths index ≡ some entry
    pub given : is_empty (trim_space entry) ≡ false
    pub under : LiesAt (clean (trim_space entry)) candidate

  later :
      (candidate raw : Text) (paths : List Text)
      → IsAdmitted candidate paths
      → IsAdmitted candidate (raw ∷ paths)
  later candidate raw paths w = record {
    index = suc w.index;
    entry = w.entry;
    listed = w.listed;
    given = w.given;
    under = w.under;
  }

  allowed_sound :
      (candidate : Text) (paths : List Text)
      → active_validation_path_allowed clean candidate paths ≡ true
      → IsAdmitted candidate paths
  unfolding active_validation_path_allowed
  allowed_sound candidate [] h = absurd (cc)
  allowed_sound candidate (raw ∷ paths) h =
      let allowed = clean (trim_space raw) in
      let go = λ (k : active_validation_path_allowed clean candidate paths ≡ true).
        later candidate raw paths (allowed_sound candidate paths k) in
      elim (Bool-cases (is_empty (trim_space raw))) [
        | inl y ↦ go (ground (arith, y, h))
        | inr n ↦ elim (Bool-cases (text_eq candidate allowed)) [
          | inl e ↦ record {
            index = 0;
            entry = raw;
            listed = refl;
            given = n;
            under = inl ((text_eq_iff candidate allowed).0 e);
          }
          | inr d ↦ elim (Option-cases (drop_prefix (directory_of allowed) candidate)) [
            | inr (rest, e) ↦ record {
              index = 0;
              entry = raw;
              listed = refl;
              given = n;
              under =
                  below_LiesAt allowed candidate rest
                    (drop_prefix_inv (directory_of allowed) candidate rest e);
            }
            | inl e ↦ go (ground (arith, n, d, e, h))
          ]
        ]
      ]

  allowed_complete :
      (candidate : Text) (paths : List Text) (i : ℕ) (entry : Text)
      → get_elem? paths i ≡ some entry
      → is_empty (trim_space entry) ≡ false
      → LiesAt (clean (trim_space entry)) candidate
      → active_validation_path_allowed clean candidate paths ≡ true
  unfolding active_validation_path_allowed
  allowed_complete candidate [] i entry l g u = absurd (cc)
  allowed_complete candidate (raw ∷ paths) zero entry l g (inl e) =
      let k : raw ≡ entry = cc in
      let t = (text_eq_iff candidate (clean (trim_space entry))).1 e in rw (k, g, t) refl
  allowed_complete candidate (raw ∷ paths) zero entry l g (inr (tail, h, slash)) =
      let k : raw ≡ entry = cc in
      let dir = directory_of (clean (trim_space entry)) in
      let (rest, e) = LiesAt_below (clean (trim_space entry)) candidate tail h slash in
      let p : drop_prefix dir candidate ≡ some rest = rw e (drop_prefix_lem dir rest) in
      rw (k, g, p) (ground arith)
  allowed_complete candidate (raw ∷ paths) (suc i) entry l g u =
      let r = allowed_complete candidate paths i entry l g u in ground (arith, r)

  refused :
      (canonical : Text) (paths : List Text)
      → active_validation_path_allowed clean canonical paths ≡ false
      → (c : Text) → some canonical ≡ some c
      → ¬ IsAdmitted c paths
  refused canonical paths r c e w =
      let k : canonical ≡ c = cc in
      let a = allowed_complete c paths w.index w.entry w.listed w.given w.under in
      let b : active_validation_path_allowed clean c paths ≡ false =
        subst (λ x. active_validation_path_allowed clean x paths ≡ false) k r in
      cc

  module _ (parse : Text → Option Text) where
    -- The path that a request names: the request is not blank, holds no scheme and begins with a
    -- slash, and what is parsed of it, once it is cleaned, begins with a slash.
    pub record IsPathOf (request path : Text) : Type 0 where
      pub parsed : Text
      pub given : is_empty request ≡ false
      pub no_scheme : contains request (text "://") ≡ false
      pub rooted : has_prefix request (text "/") ≡ true
      pub parses : parse request ≡ some parsed
      pub cleaned : path ≡ clean parsed
      pub stays_rooted : has_prefix path (text "/") ≡ true

    path-parses :
        (request path : Text)
        → canonicalize_active_validation_path clean parse request ≡ some path
        → (parsed : Text) × (parse (trim_space request) ≡ some parsed)
    unfolding canonicalize_active_validation_path
    path-parses request path h = elim (Option-cases (parse (trim_space request))) [
      | inl e ↦ absurd (ground (arith, e, h))
      | inr (parsed, e) ↦ (parsed, e)
    ]

    canonicalize_sound :
        (request path : Text)
        → canonicalize_active_validation_path clean parse request ≡ some path
        → IsPathOf (trim_space request) path
    unfolding canonicalize_active_validation_path
    canonicalize_sound request path h =
        let (parsed, e) = path-parses request path h in
        record {
          parsed = parsed;
          given = ground (arith, e, h);
          no_scheme = ground (arith, e, h);
          rooted = ground (arith, e, h);
          parses = e;
          cleaned = ground (arith, e, h);
          stays_rooted = ground (arith, e, h);
        }

    canonicalize_complete :
        (request path : Text)
        → IsPathOf (trim_space request) path
        → canonicalize_active_validation_path clean parse request ≡ some path
    unfolding canonicalize_active_validation_path
    canonicalize_complete request path w =
        let stays : has_prefix (clean w.parsed) (text "/") ≡ true =
          subst (λ p. has_prefix p (text "/") ≡ true) w.cleaned w.stays_rooted in
        rw (w.given, w.no_scheme, w.rooted, w.parses, stays) (ap some (sym w.cleaned))

    authorize-canonical_iff :
        (paths : List Text) (request sent : Text)
        → (authorize_active_validation_path clean parse paths request ≡ some sent) ↔ (
            (sent ≡ trim_space request)
            × ((canonical : Text) × (canonicalize_active_validation_path clean parse
                    (trim_space request)
                  ≡ some canonical)
                × IsAdmitted canonical paths))
    unfolding authorize_active_validation_path
    authorize-canonical_iff paths request sent =
        elim (Option-cases (canonicalize_active_validation_path clean parse (trim_space request))) [
          | inl e ↦
              rw (e, authorize_active_validation_path)
                ((λ h. absurd (cc)), λ h. let k = h.1.1 in absurd (cc))
          | inr (canonical, e) ↦
              elim (Bool-cases (active_validation_path_allowed clean canonical paths)) [
                | inl a ↦
                    rw (e, a, authorize_active_validation_path)
                      (
                        (λ h. (cc, (canonical, refl, allowed_sound canonical paths a))),
                        λ h. let k = h.0 in cc,
                      )
                | inr r ↦
                    rw (e, r, authorize_active_validation_path)
                      (
                        (λ h. absurd (cc)),
                        λ h. absurd (refused canonical paths r h.1.0 h.1.1 h.1.2),
                      )
              ]
        ]

    -- A request is authorised exactly if, without the spaces around it, it is not blank, holds no
    -- `://` and begins with a slash, and the path that is parsed of it, once it is cleaned, begins
    -- with a slash and is the cleaned form of an allowed path that is not blank, or lies below one
    -- behind a slash; what is sent is the trimmed request.
    pub authorize_active_validation_path_iff :
        (paths : List Text) (request sent : Text)
        → (authorize_active_validation_path clean parse paths request ≡ some sent) ↔ (
            (sent ≡ trim_space request)
            × ((path : Text) × IsPathOf (trim_space (trim_space request)) path
                × IsAdmitted path paths))
    authorize_active_validation_path_iff paths request sent =
        let (only, back) = authorize-canonical_iff paths request sent in
        (
          (λ h.
              let (same, (path, named, admitted)) = only h in
              (same, (path, canonicalize_sound (trim_space request) path named, admitted))),
          λ h.
              let (same, (path, named, admitted)) = h in
              back (same, (path, canonicalize_complete (trim_space request) path named, admitted)),
        )
