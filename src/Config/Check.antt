-- ===== src/Config/Check.antt =====
-- The whole configuration and `Validate` (pkg/config/config.go).
use basecheck_agent.Prelude.{ℕ, Bool, not, ℤ, Option, none, some, List, [], ◌∷◌, if◌then◌else◌}
use basecheck_agent.Text.{Text, text, equal_fold, trim_space}
use basecheck_agent.Config.Named.{Fault}
use basecheck_agent.Config.Database.{DatabaseConfig, DatabaseFault, validate_databases}
use basecheck_agent.Config.Validation.{
  ActiveValidationConfig, TargetFault, validate_identities, validate_targets,
}
use basecheck_agent.Config.Siem.{SiemConfig, SiemFault, Url, validate_siem}
use basecheck_agent.Config.Defaults.{
  AgentConfig, ControlSetConfig, EntitlementConfig, LoggingConfig, LogMiningConfig,
  AuditPoliciesConfig, SecurityConfig,
}

pub record FileConfig : Type 0 where
  pub path : Text
  pub format : Text

pub record HttpConfig : Type 0 where
  pub url : Text
  pub api_key : Text
  pub timeout : ℤ

pub record OutputConfig : Type 0 where
  pub mode : Text
  pub file : FileConfig
  pub http : HttpConfig
  pub siem : SiemConfig

pub record Config : Type 0 where
  pub agent : AgentConfig
  pub databases : List DatabaseConfig
  pub control_sets : ControlSetConfig
  pub entitlement : EntitlementConfig
  pub output : OutputConfig
  pub logging : LoggingConfig
  pub log_mining : LogMiningConfig
  pub active_validation : ActiveValidationConfig
  pub audit_policies : AuditPoliciesConfig
  pub security : SecurityConfig

pub data ConfigFault : Type 0 where
  no_databases : ConfigFault
  database_fault : ℕ × Fault DatabaseFault → ConfigFault
  identity_fault : ℕ × Fault TargetFault → ConfigFault
  target_fault : ℕ × Fault TargetFault → ConfigFault
  siem_fault : SiemFault → ConfigFault

-- Without databases, the control sets have to come from the backend.
unfoldable pub validate_presence : Config → Option ConfigFault
validate_presence c = elim c.databases [
  | [] ↦
      if not (equal_fold (trim_space c.control_sets.source) (text "http"))
      then some no_databases
      else none
  | db ∷ dbs ↦ none
]

unfoldable pub is_siem_only : Config → Bool
is_siem_only c = equal_fold (trim_space c.output.mode) (text "siem_only")

module _ (parse_url : Text → Option Url) where
  -- The check at the end, of the SIEM settings where they count.
  unfoldable pub validate_output : Config → Option ConfigFault
  validate_output c =
      let fault = validate_siem parse_url c.security.allow_http c.output.siem in
      if is_siem_only c then elim fault [ none ↦ none | some f ↦ some (siem_fault f) ] else none

  -- `Validate`; `none` is an accepted configuration.
  unfoldable pub validate : Config → Option ConfigFault
  validate c = elim (validate_presence c) [
    | some fault ↦ some fault
    | none ↦ elim (validate_databases c.databases) [
      | some fault ↦ some (database_fault fault)
      | none ↦ elim (validate_identities c.active_validation.identities) [
        | some fault ↦ some (identity_fault fault)
        | none ↦ elim (validate_targets c.security.allow_http c.active_validation.targets) [
          | some fault ↦ some (target_fault fault)
          | none ↦ validate_output c
        ]
      ]
    ]
  ]
