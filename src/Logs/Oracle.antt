-- ===== src/Logs/Oracle.antt =====
-- The parser of Oracle's alert log (pkg/logs/oracle/parser.go): lines, as the scanner gives them, are
-- gathered into entries that begin with a line that is a timestamp. The parser of times and the hash
-- are inputs; a time is a number, 0 for the zero time. A line longer than 1 MB is an error of the
-- scanner.
pub mod Patterns
pub mod Laws
mod Examples
use basecheck_agent.Prelude.{
  ℕ, Bool, true, false, not, ◌&&◌, ◌||◌, ltb, ℤ, is_nonpos, to_ℕ, Option, none, some, List, [], ◌∷◌,
  ◌++◌, length, any, if◌then◌else◌,
}
use basecheck_agent.Text.{Text, text, is_empty, has_prefix, take, join, upper, trim_space}
use basecheck_agent.Logs.Oracle.Patterns.{matches_timestamp, first_code, squeeze}

pub record Source : Type 0 where
  pub database_name : Text
  pub database_type : Text
  pub name : Text
  pub type : Text
  pub path : Text
  pub enabled : Bool
  pub multiline_mode : Text
  pub timezone : Text

pub record Event : Type 0 where
  pub source_key : Text
  pub database_name : Text
  pub database_type : Text
  pub source_name : Text
  pub source_type : Text
  pub source_path : Text
  pub event_time : ℕ
  pub severity : Text
  pub code : Text
  pub category : Text
  pub message : Text
  pub raw_excerpt : Text
  pub raw_excerpt_truncated : Bool
  pub line_count : ℕ
  pub byte_count : ℕ
  pub fingerprint : Text

-- `time.Parse` with the layout of the alert log, and the hash in hexadecimal.
pub record Formats : Type 0 where
  pub parse_time : Text → Option ℕ
  pub sha256 : Text → Text

unfoldable pub is_timestamp_line : Text → Bool
is_timestamp_line line = matches_timestamp (trim_space line)

abbrev pub has_any_prefix : Text → List Text → Bool
has_any_prefix code prefixes = any (has_prefix code) prefixes

unfoldable pub classify_severity : Text → Text
classify_severity code =
    if has_any_prefix code (text "ORA-00600" ∷ text "ORA-07445" ∷ [])
    then text "critical"
    else if has_any_prefix code (text "ORA-" ∷ text "TNS-" ∷ [])
    then text "high"
    else text "info"

unfoldable pub classify_category : Text → Text
classify_category code =
    if has_prefix code (text "TNS-")
    then text "listener_network"
    else if has_prefix code (text "ORA-00060")
    then text "deadlock"
    else if has_prefix code (text "ORA-01555")
    then text "undo_pressure"
    else if has_prefix code (text "ORA-04031")
    then text "memory_pressure"
    else if has_any_prefix code (text "ORA-00257" ∷ text "ORA-19809" ∷ text "ORA-19815" ∷ [])
    then text "storage_capacity"
    else if has_any_prefix code (text "ORA-1691" ∷ text "ORA-01653" ∷ text "ORA-01654" ∷ [])
    then text "storage_capacity"
    else if has_any_prefix code (text "ORA-00600" ∷ text "ORA-07445" ∷ [])
    then text "internal_error"
    else if has_prefix code (text "ORA-")
    then text "database_error"
    else text "informational"

-- The first line with something on it.
unfoldable pub first_filled : List Text → Text
first_filled [] = []
first_filled (line ∷ lines) =
    let rest = first_filled lines in if is_empty (trim_space line) then rest else trim_space line

-- A timestamp at the start is no message.
unfoldable pub first_message_line : List Text → Text
first_message_line [] = []
first_message_line (line ∷ lines) =
    if is_timestamp_line line then first_filled lines else first_filled (line ∷ lines)

abbrev pub is_cut : ℤ → Text → Bool
is_cut max_excerpt_bytes raw =
    not (is_nonpos max_excerpt_bytes) && ltb (to_ℕ max_excerpt_bytes) (length raw)

module _ (formats : Formats) where
  unfoldable pub build_fingerprint : Text → Text → Text
  build_fingerprint code message =
      formats.sha256 (trim_space (squeeze false (upper (code ++ (b' ' ∷ message)))))

  -- The time of an entry, the zero time where there is none.
  unfoldable pub time_of : List Text → ℕ
  time_of [] = 0
  time_of (line ∷ lines) =
      if is_timestamp_line line
      then elim (formats.parse_time (trim_space line)) [ none ↦ 0 | some t ↦ t ]
      else 0

  unfoldable pub build_event : Source → ℤ → List Text → Event
  build_event source max_excerpt_bytes lines =
      let raw = join lines (10 ∷ []) in
      let code = first_code raw in
      let message = first_message_line lines in
      record {
        source_key = source.database_name ++ (b'/' ∷ source.name);
        database_name = source.database_name;
        database_type = source.database_type;
        source_name = source.name;
        source_type = source.type;
        source_path = source.path;
        event_time = time_of lines;
        severity = classify_severity code;
        code = code;
        category = classify_category code;
        message = message;
        raw_excerpt =
            if is_cut max_excerpt_bytes raw then take (to_ℕ max_excerpt_bytes) raw else raw;
        raw_excerpt_truncated = is_cut max_excerpt_bytes raw;
        line_count = length lines;
        byte_count = length raw;
        fingerprint = build_fingerprint code message;
      }

  module _ (source : Source) (max_excerpt_bytes : ℤ) where
    -- `flush`: the event of the gathered lines, unless there is nothing on them.
    unfoldable pub flush : List Text → List Event
    flush [] = []
    flush (line ∷ lines) =
        let event = build_event source max_excerpt_bytes (line ∷ lines) in
        if not (is_empty event.message) || not (is_empty event.raw_excerpt) then event ∷ [] else []

    -- The loop over the lines, with those gathered so far.
    unfoldable pub parse_from : List Text → List Text → List Event
    parse_from lines [] = flush lines
    parse_from lines (line ∷ rest) = elim (is_timestamp_line line) [
      | true ↦ flush lines ++ parse_from (line ∷ []) rest
      | false ↦ parse_from (lines ++ line ∷ []) rest
    ]

    -- `Parse`; `none` is the scanner's error.
    unfoldable pub parse : Bool → List Text → Option (List Event)
    parse is_scanned lines = if is_scanned then some (parse_from [] lines) else none
