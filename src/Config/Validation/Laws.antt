-- ===== src/Config/Validation/Laws.antt =====
-- The identities and targets that the configuration may name (pkg/config/config.go).
use basecheck_agent.Prelude.{
  ℕ, suc, ◌≡◌, ◌↔◌, refl, Bool, Bool-cases, true, false, Option, none, some, List, [], ◌∷◌, map,
  All, inl, inr, arith, if◌then◌else◌,
}
use basecheck_agent.Text.{Text, text, has_prefix, trim_space}
use basecheck_agent.Config.Named.Laws.{IsDistinct, validate_list_iff}
use basecheck_agent.Config.Database.{is_blank}
use basecheck_agent.Config.Database.Laws.{All-iff}
use basecheck_agent.Config.Validation.{
  ActiveValidationIdentity, ActiveValidationTarget, TargetFault, missing_base_url,
  insecure_base_url, missing_allowed_paths, bad_allowed_path, is_insecure_url, bad_path,
  validate_target, nothing_else, validate_identities, validate_targets,
}

-- Paths below the root, and one at least.
abbrev pub IsPathList : List Text → Type 0
IsPathList paths =
    (¬ (paths ≡ [])) × All (λ path. has_prefix (trim_space path) (text "/") ≡ true) paths

-- A target with a URL, over HTTPS unless HTTP is allowed, and the paths below it.
abbrev pub IsReachable : Bool → ActiveValidationTarget → Type 0
IsReachable allow_http target =
    (is_blank target.base_url ≡ false)
    × ((is_insecure_url target.base_url allow_http ≡ false) × IsPathList target.allowed_paths)

bad_path_iff :
    (j : ℕ) (paths : List Text)
    → (bad_path j paths ≡ none) ↔ All (λ path. has_prefix (trim_space path) (text "/") ≡ true) paths
unfolding bad_path
bad_path_iff j [] = (λ h. tt, λ h. refl)
bad_path_iff j (path ∷ paths) =
    let (f, g) = bad_path_iff (suc j) paths in
    elim (Bool-cases (has_prefix (trim_space path) (text "/"))) [
      | inl y ↦ (λ h. (y, f (ground (arith, h, y))), λ (a, b). let r = g b in ground (arith, y, r))
      | inr w ↦ (λ h. absurd (ground (arith, h, w)), λ (a, b). absurd (cc))
    ]

paths_iff :
    (paths : List Text)
    → ((elim paths [
      | [] ↦ some missing_allowed_paths
      | path ∷ rest ↦ elim (bad_path 0 (path ∷ rest)) [
        | none ↦ none
        | some j ↦ some (bad_allowed_path j)
      ]
    ])
        ≡ none)
      ↔ IsPathList paths
paths_iff [] = (λ h. absurd (cc), λ (some_path, all). absurd (some_path refl))
paths_iff (path ∷ paths) =
    let (f, g) = bad_path_iff 0 (path ∷ paths) in
    (
      λ h. (λ e. absurd (cc), f (ground (arith, h))),
      λ (some_path, all). let r = g all in ground (arith, r),
    )

target_iff :
    {P : Type 0} (blank insecure : Bool) (rest : Option TargetFault)
    → (rest ≡ none) ↔ P
    → ((if blank then some missing_base_url else if insecure then some insecure_base_url else rest)
        ≡ none)
      ↔ ((blank ≡ false) × ((insecure ≡ false) × P))
target_iff blank insecure rest (f, g) = ground (arith, f, g)

validate_target_iff :
    (allow_http : Bool) (target : ActiveValidationTarget)
    → (validate_target allow_http target ≡ none) ↔ IsReachable allow_http target
unfolding validate_target
validate_target_iff allow_http target =
    target_iff (is_blank target.base_url) (is_insecure_url target.base_url allow_http) _
      (paths_iff target.allowed_paths)

pub validate_targets_iff :
    (allow_http : Bool) (targets : List ActiveValidationTarget)
    → (validate_targets allow_http targets ≡ none) ↔ (
        All
          (λ (t : ActiveValidationTarget). (is_blank t.name ≡ false) × IsReachable allow_http t)
          targets
        × IsDistinct (map (λ (t : ActiveValidationTarget). t.name) targets))
unfolding validate_targets
validate_targets_iff allow_http targets =
    let (sound, complete) =
      validate_list_iff (λ (t : ActiveValidationTarget). t.name)
        (λ (t : ActiveValidationTarget). is_blank t.name) (validate_target allow_http) targets in
    let (each, back) =
      All-iff
        {P = λ (t : ActiveValidationTarget).
          (is_blank t.name ≡ false) × (validate_target allow_http t ≡ none)}
        {Q = λ (t : ActiveValidationTarget). (is_blank t.name ≡ false) × IsReachable allow_http t}
        targets
        (λ t.
          let (f, g) = validate_target_iff allow_http t in
          (λ (n, v). (n, f v), λ (n, v). (n, g v))) in
    (
      λ h. let (all, distinct) = sound h in (each all, distinct),
      λ (all, distinct). complete (back all, distinct),
    )

pub validate_identities_iff :
    (identities : List ActiveValidationIdentity)
    → (validate_identities identities ≡ none) ↔ (
        All (λ (i : ActiveValidationIdentity). is_blank i.name ≡ false) identities
        × IsDistinct (map (λ (i : ActiveValidationIdentity). i.name) identities))
unfolding validate_identities
validate_identities_iff identities =
    let (sound, complete) =
      validate_list_iff (λ (i : ActiveValidationIdentity). i.name)
        (λ (i : ActiveValidationIdentity). is_blank i.name) nothing_else identities in
    let (each, back) =
      All-iff
        {P = λ (i : ActiveValidationIdentity). (is_blank i.name ≡ false) × (nothing_else i ≡ none)}
        {Q = λ (i : ActiveValidationIdentity). is_blank i.name ≡ false} identities
        (λ i. (λ (n, v). n, λ n. (n, refl))) in
    (
      λ h. let (all, distinct) = sound h in (each all, distinct),
      λ (all, distinct). complete (back all, distinct),
    )
