-- ===== src/Config/Examples.antt =====
-- Tests of the validation on concrete settings, and the theorem about it applied there.
use basecheck_agent.Prelude.{◌≡◌, ◌↔◌, refl, true, false, pos, negsuc, Option, none, some, [], ◌∷◌}
use basecheck_agent.Text.{Text, text, text_eq, trim_left, trim_right, drop_prefix}
use basecheck_agent.Config.Named.{duplicate_name, detail, validate_named}
use basecheck_agent.Config.Database.{
  LogSourceConfig, DatabaseConfig, invalid_port, oracle_sys_user_not_allowed, validate_log_source,
  validate_log_sources, validate_network, validate_oracle, validate_specific, validate_database,
  validate_databases,
}
use basecheck_agent.Config.Validation.{
  ActiveValidationTarget, insecure_base_url, is_insecure_url, bad_path, validate_target,
  validate_targets, validate_identities,
}
use basecheck_agent.Config.Siem.{SiemConfig, Url, validate_syslog, validate_siem}
use basecheck_agent.Config.Check.{
  Config, no_databases, database_fault, is_siem_only, validate_presence, validate_output, validate,
}
use basecheck_agent.Config.Laws.{IsAccepted, validate_iff}

abbrev pub parse_url : Text → Option Url
parse_url s = some (record { scheme = text "https"; host = text "h" })

abbrev pub siem_settings : SiemConfig
siem_settings = record {
  destination = text " Syslog";
  webhook = record { url = []; headers = []; timeout_seconds = pos 0 };
  syslog = record {
    host = text "log.example";
    port = pos 0;
    protocol = text "UDP";
    facility = text "Local3";
    app_name = [];
    timeout_seconds = negsuc 4;
  };
  queue = record {
    max_size = pos 0;
    flush_interval_seconds = pos 0;
    retry_max = pos 0;
    retry_backoff_seconds = [];
    path = [];
  };
  dead_letter = record { path = []; max_size_mb = pos 0 };
  deduplication = record { disabled = false; window_hours = pos 0; persist_path = [] };
}

abbrev alert_log : LogSourceConfig
alert_log = record {
  name = text "alert";
  type = text "oracle_alert_log";
  path = [];
  enabled = true;
  multiline_mode = [];
  timezone = [];
}

abbrev pub oracle : DatabaseConfig
oracle = record {
  name = text "erp";
  type = text "Oracle ";
  host = text "db1";
  port = pos 1521;
  database = [];
  service_name = text "ERP";
  sid = [];
  username = text "audit";
  password = text "x";
  ssl_mode = [];
  project_ref = [];
  management_api_token = [];
  management_api_url = [];
  edge_source_path = [];
  control_variables = [];
  as_sysdba = false;
  allow_read_only_fallback = false;
  audit_log_path = [];
  audit_log_max_rows = pos 0;
  log_sources = alert_log ∷ [];
}

abbrev target : ActiveValidationTarget
target = record {
  name = text "api";
  base_url = text "https://api.example";
  headers = [];
  allowed_paths = text "/v1" ∷ [];
}

abbrev pub settings : Config
settings = record {
  agent = record {
    name = text "a1";
    token = [];
    token_file = [];
    hostname = text "h1";
    version = text "1.0";
    agent_id = [];
  };
  databases = oracle ∷ [];
  control_sets = record {
    source = text "local";
    local_path = [];
    backend_url = [];
    cache_path = [];
  };
  entitlement = record { local_path = []; cache_path = [] };
  output = record {
    mode = text "siem_only";
    file = record { path = []; format = [] };
    http = record { url = []; api_key = []; timeout = pos 0 };
    siem = siem_settings;
  };
  logging = record { level = []; output = []; path = [] };
  log_mining = record {
    enabled = false;
    state_path = [];
    max_excerpt_bytes = pos 0;
    max_entry_bytes = pos 0;
  };
  active_validation = record {
    enabled = false;
    max_requests_per_run = pos 0;
    max_concurrent = pos 0;
    timeout_seconds = pos 0;
    max_response_bytes = pos 0;
    allow_state_change = false;
    identities = [];
    targets = target ∷ [];
  };
  audit_policies = record {
    min_retention_days = pos 0;
    sensitive_patterns = [];
    critical_operations = [];
  };
  security = record { allow_http = false; require_signatures = none; public_key = [] };
}

pub settings_accepted : validate parse_url settings ≡ none
unfolding validate validate_presence validate_databases validate_named validate_database text_eq
    trim_right trim_left validate_network validate_specific validate_oracle validate_log_sources
    validate_log_source validate_identities validate_targets validate_target is_insecure_url
    bad_path drop_prefix validate_output is_siem_only validate_siem validate_syslog
settings_accepted = refl

duplicate_test :
    validate parse_url (record settings { databases = oracle ∷ oracle ∷ [] })
    ≡ some (database_fault (1, duplicate_name))
unfolding validate validate_presence validate_databases validate_named validate_database text_eq
    trim_right trim_left validate_network validate_specific validate_oracle validate_log_sources
    validate_log_source
duplicate_test = refl

sys_test :
    validate parse_url
      (record settings { databases = record oracle { username = text " SYS" } ∷ [] })
    ≡ some (database_fault (0, detail oracle_sys_user_not_allowed))
unfolding validate validate_presence validate_databases validate_named validate_database text_eq
    trim_right trim_left validate_network validate_specific validate_oracle validate_log_sources
    validate_log_source
sys_test = refl

port_test :
    validate parse_url (record settings {
      databases = oracle ∷ record oracle { name = text "b"; port = pos 65536 } ∷ [];
    })
    ≡ some (database_fault (1, detail invalid_port))
unfolding validate validate_presence validate_databases validate_named validate_database text_eq
    trim_right trim_left validate_network validate_specific validate_oracle validate_log_sources
    validate_log_source
port_test = refl

insecure_test :
    validate_targets false (record target { base_url = text "http://api" } ∷ [])
    ≡ some (0, detail insecure_base_url)
unfolding validate_targets validate_named validate_target is_insecure_url drop_prefix trim_right
    trim_left
insecure_test = refl

presence_test : validate parse_url (record settings { databases = [] }) ≡ some no_databases
unfolding validate validate_presence text_eq trim_right trim_left
presence_test = refl

validate_iff_example : (validate parse_url settings ≡ none) ↔ IsAccepted parse_url settings
validate_iff_example = validate_iff parse_url settings
