-- ===== src/Config/Validation.antt =====
-- The limits, identities and targets of active validation (pkg/config/config.go).
pub mod Laws
use basecheck_agent.Prelude.{
  ℕ, suc, Bool, not, ◌&&◌, ℤ, pos, is_nonpos, Option, none, some, List, [], ◌∷◌, if◌then◌else◌,
}
use basecheck_agent.Text.{Text, text, has_prefix, trim_space}
use basecheck_agent.Config.Named.{Fault, validate_named}
use basecheck_agent.Config.Database.{is_blank}

pub record ActiveValidationIdentity : Type 0 where
  pub name : Text
  pub headers : List (Text × Text)

pub record ActiveValidationTarget : Type 0 where
  pub name : Text
  pub base_url : Text
  pub headers : List (Text × Text)
  pub allowed_paths : List Text

pub record ActiveValidationConfig : Type 0 where
  pub enabled : Bool
  pub max_requests_per_run : ℤ
  pub max_concurrent : ℤ
  pub timeout_seconds : ℤ
  pub max_response_bytes : ℤ
  pub allow_state_change : Bool
  pub identities : List ActiveValidationIdentity
  pub targets : List ActiveValidationTarget

-- A setting, or its default where it is not positive.
abbrev pub positive_or : ℕ → ℤ → ℤ
positive_or default n = if is_nonpos n then pos default else n

unfoldable pub validation_max_requests_per_run : ActiveValidationConfig → ℤ
validation_max_requests_per_run a = positive_or 10 a.max_requests_per_run

unfoldable pub validation_max_concurrent : ActiveValidationConfig → ℤ
validation_max_concurrent a = positive_or 1 a.max_concurrent

unfoldable pub validation_timeout_seconds : ActiveValidationConfig → ℤ
validation_timeout_seconds a = positive_or 10 a.timeout_seconds

unfoldable pub validation_max_response_bytes : ActiveValidationConfig → ℤ
validation_max_response_bytes a = positive_or 65536 a.max_response_bytes

pub data TargetFault : Type 0 where
  missing_base_url : TargetFault
  insecure_base_url : TargetFault
  missing_allowed_paths : TargetFault
  bad_allowed_path : ℕ → TargetFault

-- `security.ValidateHTTPS`, true for an error.
unfoldable pub is_insecure_url : Text → Bool → Bool
is_insecure_url url allow_http = not allow_http && has_prefix (trim_space url) (text "http://")

-- The loop over the allowed paths.
unfoldable pub bad_path : ℕ → List Text → Option ℕ
bad_path j [] = none
bad_path j (path ∷ paths) =
    let rest = bad_path (suc j) paths in
    if not (has_prefix (trim_space path) (text "/")) then some j else rest

-- The settings of a target behind its name.
unfoldable pub validate_target : Bool → ActiveValidationTarget → Option TargetFault
validate_target allow_http target =
    if is_blank target.base_url
    then some missing_base_url
    else if is_insecure_url target.base_url allow_http
    then some insecure_base_url
    else elim target.allowed_paths [
      | [] ↦ some missing_allowed_paths
      | path ∷ paths ↦ elim (bad_path 0 (path ∷ paths)) [
        | none ↦ none
        | some j ↦ some (bad_allowed_path j)
      ]
    ]

abbrev pub nothing_else : ActiveValidationIdentity → Option TargetFault
nothing_else identity = none

-- The loop over the identities; they have a name and nothing else to check.
unfoldable pub validate_identities : List ActiveValidationIdentity → Option (ℕ × Fault TargetFault)
validate_identities identities =
    validate_named (λ (i : ActiveValidationIdentity). i.name)
      (λ (i : ActiveValidationIdentity). is_blank i.name) nothing_else [] 0 identities

-- The loop over the targets.
unfoldable pub validate_targets :
    Bool → List ActiveValidationTarget → Option (ℕ × Fault TargetFault)
validate_targets allow_http targets =
    validate_named (λ (t : ActiveValidationTarget). t.name)
      (λ (t : ActiveValidationTarget). is_blank t.name) (validate_target allow_http) [] 0 targets
