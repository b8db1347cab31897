-- ===== src/Control/Watermark.antt =====
-- The watermarks of the evidence capture (pkg/controlset/executor.go): where the last run stopped,
-- as JSON that the backend keeps, becomes a condition in the SQL of the next run. Reading and
-- writing JSON are inputs.
pub mod Conditions
pub mod Laws
use basecheck_agent.Prelude.{
  ℕ, ℤ, ◌+◌, Bool, ◌&&◌, ◌||◌, Option, none, some, List, [], ◌∷◌, ◌++◌, map, length, if◌then◌else◌,
}
use basecheck_agent.Text.{
  Text, text, text_eq, is_empty, equal_fold, index_of, take, drop, trim_space,
}
use basecheck_agent.Control.Watermark.Conditions.{
  Watermark, Datum, other, to_sql_string, normalize_watermark_timestamp, normalize_watermark_hash,
  to_sql_int, format_oracle_unified, format_oracle_traditional, format_mssql_trace,
  format_postgres_statements, format_supabase_auth,
}

-- The kinds of evidence that are captured from where the last run stopped.
pub data Capture : Type 0 where
  oracle_unified : Capture
  oracle_traditional : Capture
  oracle_grants : Capture
  mssql_trace : Capture
  postgres_statements : Capture
  supabase_auth : Capture

-- The cases of the three switches over the type of the database and that of the evidence.
unfoldable pub capture_of : Text → Text → Option Capture
capture_of database evidence =
    let oracle = equal_fold database (text "oracle") in
    let supabase = equal_fold database (text "supabase") in
    let operations = text_eq evidence (text "audit_operations") in
    if oracle && operations
    then some oracle_unified
    else if oracle && text_eq evidence (text "audit_operations_traditional")
    then some oracle_traditional
    else if oracle && text_eq evidence (text "privilege_grant_history")
    then some oracle_grants
    else if equal_fold database (text "mssql") && operations
    then some mssql_trace
    else if (equal_fold database (text "postgres") || supabase) && operations
    then some postgres_statements
    else if supabase && text_eq evidence (text "audit_operations_auth")
    then some supabase_auth
    else none

abbrev pub placeholder : Capture → Text
placeholder oracle_unified = text "{{BASECHECK_ORACLE_UNIFIED_WATERMARK}}"
placeholder oracle_traditional = text "{{BASECHECK_ORACLE_TRADITIONAL_WATERMARK}}"
placeholder oracle_grants = text "{{BASECHECK_ORACLE_UNIFIED_WATERMARK}}"
placeholder mssql_trace = text "{{BASECHECK_MSSQL_TRACE_WATERMARK}}"
placeholder postgres_statements = text "{{BASECHECK_POSTGRES_STATEMENTS_WATERMARK}}"
placeholder supabase_auth = text "{{BASECHECK_SUPABASE_AUTH_AUDIT_WATERMARK}}"

-- The last 30 days.
abbrev pub default_window : Capture → Text
default_window oracle_unified = text "EVENT_TIMESTAMP > SYSTIMESTAMP - INTERVAL '30' DAY"
default_window oracle_traditional = text "EXTENDED_TIMESTAMP > SYSTIMESTAMP - INTERVAL '30' DAY"
default_window oracle_grants = text "EVENT_TIMESTAMP > SYSTIMESTAMP - INTERVAL '30' DAY"
default_window mssql_trace = text "te.StartTime > DATEADD(DAY, -30, GETDATE())"
default_window postgres_statements =
    text "COALESCE(pss.last_exec_time, NOW()) > NOW() - INTERVAL '30 days'"
default_window supabase_auth = text "created_at > NOW() - INTERVAL '30 days'"

module _ (w : Watermark) where
  abbrev timestamp : Text
  timestamp = normalize_watermark_timestamp (w (text "event_timestamp"))

  abbrev integer : Text → ℤ
  integer key = to_sql_int (w key)

  abbrev unified : Text
  unified =
      format_oracle_unified timestamp (integer (text "entry_id")) (integer (text "statement_id"))

  -- The condition for a watermark with a timestamp.
  unfoldable pub resumed : Capture → Text
  resumed oracle_unified = unified
  resumed oracle_grants = unified
  resumed oracle_traditional =
      format_oracle_traditional timestamp (integer (text "sessionid")) (integer (text "entryid"))
        (integer (text "statementid"))
  resumed mssql_trace =
      format_mssql_trace timestamp (integer (text "event_class")) (integer (text "spid"))
        (integer (text "object_id")) (integer (text "database_id"))
  resumed postgres_statements =
      format_postgres_statements timestamp (integer (text "query_id")) (integer (text "user_id"))
        (integer (text "dbid"))
  resumed supabase_auth =
      format_supabase_auth timestamp (normalize_watermark_hash (w (text "event_hash")))

  -- `buildOracleUnifiedWatermarkCondition` and the four others.
  unfoldable pub watermark_condition : Capture → Text
  watermark_condition capture =
      if is_empty timestamp then default_window capture else resumed capture

-- `strings.Replace` with a count of 1.
unfoldable pub replace_first : Text → Text → Text → Text
replace_first s old new = elim (index_of s old) [
  | none ↦ s
  | some i ↦ take i s ++ (new ++ drop (i + length old) s)
]

unfoldable pub apply_default_evidence_window : Text → Text → Text → Text
apply_default_evidence_window database evidence sql = elim (capture_of database evidence) [
  | none ↦ sql
  | some capture ↦ replace_first sql (placeholder capture) (default_window capture)
]

unfoldable pub build_incremental_evidence_sql :
    (Text → Option Watermark) → Text → Text → Text → Text → Text
build_incremental_evidence_sql decode database evidence sql json =
    let default_sql = apply_default_evidence_window database evidence sql in
    if is_empty (trim_space json) then default_sql else elim (decode json) [
      | none ↦ default_sql
      | some w ↦ elim (capture_of database evidence) [
        | none ↦ sql
        | some capture ↦ replace_first sql (placeholder capture) (watermark_condition w capture)
      ]
    ]

-- The keys of a watermark beside the timestamp, and the columns they are taken from.
abbrev pub fields_of : Capture → List (Text × Text)
fields_of oracle_unified =
    (text "entry_id", text "ENTRY_ID")
    ∷ (text "statement_id", text "STATEMENT_ID")
    ∷ (text "scn", text "SCN")
    ∷ []
fields_of oracle_grants =
    (text "entry_id", text "ENTRY_ID")
    ∷ (text "statement_id", text "STATEMENT_ID")
    ∷ (text "scn", text "SCN")
    ∷ []
fields_of oracle_traditional =
    (text "sessionid", text "SESSIONID")
    ∷ (text "entryid", text "ENTRYID")
    ∷ (text "statementid", text "STATEMENTID")
    ∷ []
fields_of mssql_trace =
    (text "event_class", text "EVENT_CLASS")
    ∷ (text "spid", text "SPID")
    ∷ (text "object_id", text "OBJECT_ID")
    ∷ (text "database_id", text "DATABASE_ID")
    ∷ []
fields_of postgres_statements =
    (text "query_id", text "QUERY_ID")
    ∷ (text "user_id", text "USER_ID")
    ∷ (text "dbid", text "DBID")
    ∷ []
fields_of supabase_auth = (text "event_hash", text "EVENT_HASH") ∷ []

abbrev last_of : Watermark → List Watermark → Watermark
last_of row [] = row
last_of row (next ∷ rows) = last_of next rows

-- The watermark after a run, from its last row; `none` of the encoder is an error.
unfoldable pub calculate_evidence_watermark :
    (List (Text × Datum) → Option Text) → Text → Text → List Watermark → Text → Text
calculate_evidence_watermark encode database evidence [] current = current
calculate_evidence_watermark encode database evidence (row ∷ rows) current =
    elim (capture_of database evidence) [
      | none ↦ current
      | some capture ↦
          let last = last_of row rows in
          let timestamp = other (to_sql_string (last (text "EVENT_TIMESTAMP"))) in
          let fields = map (λ f. (f.0, last f.1)) (fields_of capture) in
          elim (encode ((text "event_timestamp", timestamp) ∷ fields)) [
            | none ↦ current
            | some json ↦ json
          ]
    ]
