-- ===== src/Logs/Examples.antt =====
-- Tests of the CSV log collector on a concrete disk, and the theorems about it applied there.
use basecheck_agent.Prelude.{◌≡◌, refl, true, pos, none, some, [], ◌∷◌}
use basecheck_agent.Text.{text, trim_left, trim_right, drop_prefix}
use basecheck_agent.Logs.Csv.Event.{CollectorConfig, Formats, first_operation, detect_operation}
use basecheck_agent.Logs.Csv.{
  State, FileInfo, Reads, end_of_file, row, Disk, row_limit, state_file, sanitize_file_part,
}

abbrev formats : Formats
formats = record { write_csv = λ fields. none; sha256 = λ s. s }

abbrev config : CollectorConfig
config = record {
  database_name = text "db";
  database_type = text "postgres";
  log_path = text " /log.csv ";
  max_rows = pos 2;
  default_db = text "app";
}

abbrev info : FileInfo
info = record { size = 90; mod_time = pos 7 }

-- The state of a run when the file was shorter.
abbrev saved : State
saved = record {
  source_path = text "/log.csv";
  source_fingerprint = text "60-5";
  last_offset = 60;
  last_line_number = 2;
  last_event_timestamp = text "t2";
  headers = text "log_time" ∷ text "query" ∷ [];
}

-- The reader takes the whole file into its buffer with the header.
abbrev rows : Reads
rows =
    row (text "t1" ∷ text "drop table a" ∷ []) 0
      (row (text "t2" ∷ text "select 1" ∷ []) 0 (row (text "t3" ∷ text "x" ∷ []) 0 end_of_file))

abbrev disk : Disk
disk = record {
  info = some info;
  saved = some saved;
  reads_from = λ n. some (row (text "log_time" ∷ text "query" ∷ []) 90 rows);
  is_saved = true;
}

row_limit_test :
    (row_limit (pos 0) ≡ 500) × ((row_limit (pos 9000) ≡ 5000) × (row_limit (pos 7) ≡ 7))
unfolding row_limit
row_limit_test = (refl, (refl, refl))

-- Two databases with one state file.
state_file_test : state_file (text "erp.eu") ≡ state_file (text "erp_eu")
unfolding state_file sanitize_file_part
state_file_test = refl

detect_operation_test :
    (detect_operation (text "  drop table a") ≡ text "DROP")
    × (detect_operation (text "vacuum") ≡ text "OTHER")
unfolding detect_operation first_operation drop_prefix trim_right trim_left
detect_operation_test = (refl, refl)
