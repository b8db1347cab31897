-- ===== src/Logs/Csv/Event.antt =====
-- One row of a CSV log as an event (MapEvent of pkg/logs/postgres/csvlog.go).
use basecheck_agent.Prelude.{
  ℕ, suc, ℤ, pos, Option, none, some, List, [], ◌∷◌, ◌++◌, get_elem?, if◌then◌else◌,
}
use basecheck_agent.Text.{Text, text, text_eq, is_empty, lower, upper, has_prefix, join, trim_space}
use basecheck_agent.Text.Numbers.{print_int}

pub record CollectorConfig : Type 0 where
  pub database_name : Text
  pub database_type : Text
  pub log_path : Text
  pub max_rows : ℤ
  pub default_db : Text

-- `csv.Writer` on one record, without the last line end, or its error; and the hash, in hexadecimal.
pub record Formats : Type 0 where
  pub write_csv : List Text → Option Text
  pub sha256 : Text → Text

-- An event; its source type `csvlog` and its status `New` are always the same.
pub record LogEvent : Type 0 where
  pub event_hash : Text
  pub event_timestamp : Text
  pub database_type : Text
  pub database_name : Text
  pub source_path : Text
  pub source_line_number : ℕ
  pub source_offset : ℕ
  pub severity : Text
  pub database_user : Text
  pub operation : Text
  pub statement : Text
  pub raw_record : Text
  pub parsed_record : List (Text × Text)

-- A column without a name is called by its number.
abbrev pub field_name : List Text → ℕ → Text
field_name headers i =
    let numbered = text "col_" ++ print_int (pos i) in
    elim (get_elem? headers i) [
      | none ↦ numbered
      | some header ↦ if is_empty (trim_space header) then numbered else trim_space header
    ]

-- The loop over the values of a record, from one on. The entries of the map in order; of two with
-- one name the later counts.
unfoldable pub fields_from : List Text → ℕ → List Text → List (Text × Text)
fields_from headers i [] = []
fields_from headers i (value ∷ values) =
    (field_name headers i, value) ∷ fields_from headers (suc i) values

-- The entry under a name, in any case; the last one counts.
unfoldable pub last_named : Text → List (Text × Text) → Option Text
last_named name [] = none
last_named name ((key, value) ∷ entries) = elim (last_named name entries) [
  | some later ↦ some later
  | none ↦ if text_eq (lower key) name then some value else none
]

-- The trimmed entry, or an empty text.
abbrev pub normalized_value : Text → List (Text × Text) → Text
normalized_value name entries = elim (last_named name entries) [
  | none ↦ []
  | some value ↦ trim_space value
]

abbrev pub operations : List Text
operations =
    text "CREATE"
    ∷ text "ALTER"
    ∷ text "DROP"
    ∷ text "TRUNCATE"
    ∷ text "GRANT"
    ∷ text "REVOKE"
    ∷ text "INSERT"
    ∷ text "UPDATE"
    ∷ text "DELETE"
    ∷ text "SELECT"
    ∷ []

unfoldable pub first_operation : Text → List Text → Text
first_operation statement [] = text "OTHER"
first_operation statement (op ∷ ops) =
    let rest = first_operation statement ops in
    if has_prefix statement (op ++ text " ") then op else rest

unfoldable pub detect_operation : Text → Text
detect_operation statement = first_operation (upper (trim_space statement)) operations

module _ (formats : Formats) where
  unfoldable pub format_record : List Text → Text
  format_record fields = elim (formats.write_csv fields) [
    | none ↦ join fields (text ",")
    | some line ↦ line
  ]

  unfoldable pub hash_event : Text → ℕ → Text → Text
  hash_event log_path line raw =
      formats.sha256 (log_path ++ (b'|' ∷ (print_int (pos line) ++ (b'|' ∷ raw))))

  unfoldable pub map_event : CollectorConfig → Text → ℕ → ℕ → List Text → List Text → LogEvent
  map_event config log_path line offset headers fields =
      let parsed = fields_from headers 0 fields in
      let named = normalized_value (text "database_name") parsed in
      let tag = normalized_value (text "command_tag") parsed in
      let query = normalized_value (text "query") parsed in
      let statement = if is_empty query then normalized_value (text "message") parsed else query in
      let raw = format_record fields in
      record {
        event_hash = hash_event log_path line raw;
        event_timestamp = normalized_value (text "log_time") parsed;
        database_type = config.database_type;
        database_name = if is_empty named then config.default_db else named;
        source_path = log_path;
        source_line_number = line;
        source_offset = offset;
        severity = normalized_value (text "error_severity") parsed;
        database_user = normalized_value (text "user_name") parsed;
        operation = if is_empty tag then detect_operation statement else tag;
        statement = statement;
        raw_record = raw;
        parsed_record = parsed;
      }
