-- ===== src/Config/Database.antt =====
-- The settings of a database and their validation (pkg/config/config.go).
pub mod Laws
use basecheck_agent.Prelude.{
  ℕ, Bool, true, false, not, ◌&&◌, ◌||◌, ℤ, pos, negsuc, leb, ◌==◌, Option, none, some, List, [],
  ◌∷◌, any, if◌then◌else◌,
}
use basecheck_agent.Text.{Text, text, text_eq, is_empty, lower, trim_space, equal_fold}
use basecheck_agent.Config.Named.{Fault, validate_named}

pub record LogSourceConfig : Type 0 where
  pub name : Text
  pub type : Text
  pub path : Text
  pub enabled : Bool
  pub multiline_mode : Text
  pub timezone : Text

pub record DatabaseConfig : Type 0 where
  pub name : Text
  pub type : Text
  pub host : Text
  pub port : ℤ
  pub database : Text
  pub service_name : Text
  pub sid : Text
  pub username : Text
  pub password : Text
  pub ssl_mode : Text
  pub project_ref : Text
  pub management_api_token : Text
  pub management_api_url : Text
  pub edge_source_path : Text
  pub control_variables : List (Text × Text)
  pub as_sysdba : Bool
  pub allow_read_only_fallback : Bool
  pub audit_log_path : Text
  pub audit_log_max_rows : ℤ
  pub log_sources : List LogSourceConfig

pub data LogSourceFault : Type 0 where
  missing_log_source_type : LogSourceFault
  missing_log_source_path : LogSourceFault

pub data DatabaseFault : Type 0 where
  invalid_database_type : DatabaseFault
  missing_sqlite_path : DatabaseFault
  missing_host : DatabaseFault
  missing_port : DatabaseFault
  invalid_port : DatabaseFault
  missing_username : DatabaseFault
  missing_oracle_service : DatabaseFault
  oracle_sys_user_not_allowed : DatabaseFault
  oracle_sysdba_not_allowed : DatabaseFault
  missing_postgres_database : DatabaseFault
  log_source_fault : ℕ × Fault LogSourceFault → DatabaseFault

abbrev pub is_blank : Text → Bool
is_blank s = is_empty (trim_space s)

abbrev pub database_types : List Text
database_types =
    text "oracle" ∷ text "postgres" ∷ text "supabase" ∷ text "mssql" ∷ text "sqlite" ∷ []

-- The type as `Validate` compares it.
abbrev pub type_of : DatabaseConfig → Text
type_of db = lower (trim_space db.type)

abbrev pub is_type : DatabaseConfig → Text → Bool
is_type db type = text_eq (type_of db) type

abbrev pub is_zero : ℤ → Bool
is_zero (pos n) = n == 0
is_zero (negsuc n) = false

-- 1 to 65535.
abbrev pub is_port : ℤ → Bool
is_port (pos n) = leb 1 n && leb n 65535
is_port (negsuc n) = false

-- The path of Oracle's alert log can be found without a setting.
abbrev pub is_alert_log : Text → LogSourceConfig → Bool
is_alert_log type source =
    text_eq type (text "oracle") && equal_fold (trim_space source.type) (text "oracle_alert_log")

-- The settings of a log source behind its name.
unfoldable pub validate_log_source : Text → LogSourceConfig → Option LogSourceFault
validate_log_source type source =
    if is_blank source.type
    then some missing_log_source_type
    else if is_blank source.path && not (is_alert_log type source)
    then some missing_log_source_path
    else none

-- The loop over the log sources of a database.
unfoldable pub validate_log_sources :
    Text → List LogSourceConfig → Option (ℕ × Fault LogSourceFault)
validate_log_sources type sources =
    validate_named (λ (s : LogSourceConfig). s.name) (λ (s : LogSourceConfig). is_blank s.name)
      (validate_log_source type) [] 0 sources

-- The fields that every database behind a network needs.
unfoldable pub validate_network : DatabaseConfig → Option DatabaseFault
validate_network db =
    if is_blank db.host
    then some missing_host
    else if is_zero db.port
    then some missing_port
    else if not (is_port db.port)
    then some invalid_port
    else if is_blank db.username
    then some missing_username
    else none

unfoldable pub validate_oracle : DatabaseConfig → Option DatabaseFault
validate_oracle db =
    if is_empty db.service_name && is_empty db.sid
    then some missing_oracle_service
    else if equal_fold (trim_space db.username) (text "sys")
    then some oracle_sys_user_not_allowed
    else if db.as_sysdba
    then some oracle_sysdba_not_allowed
    else none

abbrev pub is_postgres : DatabaseConfig → Bool
is_postgres db = is_type db (text "postgres") || is_type db (text "supabase")

-- The checks of one kind of database.
unfoldable pub validate_specific : DatabaseConfig → Option DatabaseFault
validate_specific db =
    let oracle = validate_oracle db in
    if is_type db (text "oracle")
    then oracle
    else if is_postgres db && is_empty db.database
    then some missing_postgres_database
    else none

-- The settings of a database behind its name.
unfoldable pub validate_database : DatabaseConfig → Option DatabaseFault
validate_database db =
    let network = validate_network db in
    let specific = validate_specific db in
    if not (any (is_type db) database_types)
    then some invalid_database_type
    else if is_type db (text "sqlite")
    then (if is_blank db.database then some missing_sqlite_path else none)
    else elim network [
      | some fault ↦ some fault
      | none ↦ elim specific [
        | some fault ↦ some fault
        | none ↦ elim (validate_log_sources (type_of db) db.log_sources) [
          | some fault ↦ some (log_source_fault fault)
          | none ↦ none
        ]
      ]
    ]

-- The loop over the databases.
unfoldable pub validate_databases : List DatabaseConfig → Option (ℕ × Fault DatabaseFault)
validate_databases dbs =
    validate_named (λ (db : DatabaseConfig). db.name) (λ (db : DatabaseConfig). is_empty db.name)
      validate_database [] 0 dbs
