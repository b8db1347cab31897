-- ===== src/Config/Defaults.antt =====
-- The other settings of the agent and their defaults (pkg/config/config.go).
use basecheck_agent.Prelude.{Bool, true, ℤ, pos, Option, none, some, List, [], ◌∷◌, if◌then◌else◌}
use basecheck_agent.Text.{Text, text, trim_space}
use basecheck_agent.Config.Database.{is_blank, is_zero}
use basecheck_agent.Config.Validation.{positive_or}

pub record AgentConfig : Type 0 where
  pub name : Text
  pub token : Text
  pub token_file : Text
  pub hostname : Text
  pub version : Text
  pub agent_id : Text

pub record ControlSetConfig : Type 0 where
  pub source : Text
  pub local_path : Text
  pub backend_url : Text
  pub cache_path : Text

pub record EntitlementConfig : Type 0 where
  pub local_path : Text
  pub cache_path : Text

pub record LoggingConfig : Type 0 where
  pub level : Text
  pub output : Text
  pub path : Text

pub record LogMiningConfig : Type 0 where
  pub enabled : Bool
  pub state_path : Text
  pub max_excerpt_bytes : ℤ
  pub max_entry_bytes : ℤ

pub record AuditPoliciesConfig : Type 0 where
  pub min_retention_days : ℤ
  pub sensitive_patterns : List Text
  pub critical_operations : List Text

-- `none` is an omitted key.
pub record SecurityConfig : Type 0 where
  pub allow_http : Bool
  pub require_signatures : Option Bool
  pub public_key : Text

unfoldable pub signatures_required : SecurityConfig → Bool
signatures_required s = elim s.require_signatures [ none ↦ true | some required ↦ required ]

-- Only zero stands for the default.
unfoldable pub min_retention_days : AuditPoliciesConfig → ℤ
min_retention_days a = if is_zero a.min_retention_days then pos 365 else a.min_retention_days

abbrev pub list_or : List Text → List Text → List Text
list_or default [] = default
list_or default (x ∷ xs) = x ∷ xs

unfoldable pub sensitive_patterns : AuditPoliciesConfig → List Text
sensitive_patterns a =
    list_or
      (text "*CUSTOMER*"
        ∷ text "*PAYMENT*"
        ∷ text "*CREDIT_CARD*"
        ∷ text "*SSN*"
        ∷ text "*PII*"
        ∷ text "*HIPAA*"
        ∷ text "FINANCE.*"
        ∷ text "HR.*"
        ∷ [])
      a.sensitive_patterns

unfoldable pub critical_operations : AuditPoliciesConfig → List Text
critical_operations a =
    list_or
      (text "DROP TABLE"
        ∷ text "DROP DATABASE"
        ∷ text "DROP USER"
        ∷ text "TRUNCATE TABLE"
        ∷ text "GRANT DBA"
        ∷ text "GRANT SYSDBA"
        ∷ text "GRANT sysadmin"
        ∷ text "ALTER SYSTEM SET"
        ∷ text "sp_addsrvrolemember"
        ∷ [])
      a.critical_operations

-- A trimmed setting, or its default where it is blank.
abbrev pub trimmed_or : Text → Text → Text
trimmed_or default s = if is_blank s then default else trim_space s

unfoldable pub entitlement_cache_path : EntitlementConfig → Text
entitlement_cache_path e = trimmed_or (text ".cache/entitlement") e.cache_path

unfoldable pub mining_state_path : LogMiningConfig → Text
mining_state_path l = trimmed_or (text ".cache/log-mining") l.state_path

unfoldable pub mining_max_excerpt_bytes : LogMiningConfig → ℤ
mining_max_excerpt_bytes l = positive_or 8192 l.max_excerpt_bytes

unfoldable pub mining_max_entry_bytes : LogMiningConfig → ℤ
mining_max_entry_bytes l = positive_or 262144 l.max_entry_bytes

unfoldable pub logging_path : LoggingConfig → Text
logging_path l = trimmed_or (text "logs/agent.log") l.path
