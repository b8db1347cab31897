-- ===== src/Logs/Csv.antt =====
-- The collector of PostgreSQL's CSV logs (Collect of pkg/logs/postgres/csvlog.go): where it resumes,
-- how many rows it takes, and the state it leaves for the next run. The files, the CSV reader and
-- the hash are inputs. Offsets, sizes and line numbers are not negative.
pub mod Event
pub mod Laws
use basecheck_agent.Prelude.{
  ℕ, zero, suc, ◌+◌, Bool, true, false, not, ◌&&◌, ◌||◌, ◌==◌, ltb, ℤ, pos, is_nonpos, to_ℕ, Option,
  none, some, List, [], ◌∷◌, ◌++◌, map, if◌then◌else◌,
}
use basecheck_agent.Text.{Text, text, text_eq, is_empty, is_lower, is_upper, is_digit, trim_space}
use basecheck_agent.Text.Numbers.{print_int}
use basecheck_agent.Logs.Csv.Event.{CollectorConfig, LogEvent, Formats, map_event}

pub record State : Type 0 where
  pub source_path : Text
  pub source_fingerprint : Text
  pub last_offset : ℕ
  pub last_line_number : ℕ
  pub last_event_timestamp : Text
  pub headers : List Text

abbrev pub empty_state : State
empty_state = record {
  source_path = [];
  source_fingerprint = [];
  last_offset = 0;
  last_line_number = 0;
  last_event_timestamp = [];
  headers = [];
}

pub record LeaseInfo : Type 0 where
  pub lease_token : Text
  pub source_key : Text
  pub source_mode : Text
  pub last_offset : ℕ
  pub last_line_number : ℕ
  pub last_event_timestamp : Text
  pub source_fingerprint : Text

pub record FileInfo : Type 0 where
  pub size : ℕ
  pub mod_time : ℤ

-- What the CSV reader gives: a record, with the bytes that the reader took from the file for it
-- (none if they were in its buffer already), the end of the file, or an error.
pub data Reads : Type 0 where
  end_of_file : Reads
  broken : Reads
  row : List Text → ℕ → Reads → Reads

-- The file, the saved state (empty if there is none), the reads from an offset, and whether the new
-- state can be saved; `none` is an error.
pub record Disk : Type 0 where
  pub info : Option FileInfo
  pub saved : Option State
  pub reads_from : ℕ → Option Reads
  pub is_saved : Bool

abbrev pub default_max_rows : ℕ
default_max_rows = 500

abbrev pub max_rows_hard_limit : ℕ
max_rows_hard_limit = 5000

unfoldable pub row_limit : ℤ → ℕ
row_limit max_rows =
    if is_nonpos max_rows
    then default_max_rows
    else if ltb max_rows_hard_limit (to_ℕ max_rows)
    then max_rows_hard_limit
    else to_ℕ max_rows

unfoldable pub build_source_fingerprint : FileInfo → Text
build_source_fingerprint info = print_int (pos info.size) ++ (b'-' ∷ print_int info.mod_time)

-- The bytes that a file name keeps.
abbrev pub is_file_byte : ℕ → Bool
is_file_byte c = is_lower c || (is_upper c || (is_digit c || (c == b'-' || c == b'_')))

abbrev pub file_byte : ℕ → ℕ
file_byte c = if is_file_byte c then c else b'_'

unfoldable pub sanitize_file_part : Text → Text
sanitize_file_part value = elim value [ [] ↦ text "database" | c ∷ cs ↦ map file_byte (c ∷ cs) ]

-- The file of a database's state.
unfoldable pub state_file : Text → Text
state_file db_name = text ".cache/audit-logs/" ++ (sanitize_file_part db_name ++ text ".json")

abbrev pub rewound : State → State
rewound state = record state {
  last_offset = 0;
  last_line_number = 0;
  last_event_timestamp = [];
  headers = [];
}

abbrev pub with_lease : State → Option LeaseInfo → State
with_lease state none = state
with_lease state (some lease) = record state {
  last_offset = lease.last_offset;
  last_line_number = lease.last_line_number;
  last_event_timestamp = lease.last_event_timestamp;
  source_fingerprint = lease.source_fingerprint;
}

-- Another file under the path, or the same one with another size or time.
abbrev pub is_rotated : State → Text → Bool
is_rotated state fingerprint =
    not (is_empty state.source_fingerprint) && not (text_eq state.source_fingerprint fingerprint)

-- A state of another path is dropped.
unfoldable pub at_path : Text → State → State
at_path log_path saved =
    if not (is_empty saved.source_path) && not (text_eq saved.source_path log_path)
    then empty_state
    else saved

unfoldable pub unrotated : Text → State → State
unrotated fingerprint state = if is_rotated state fingerprint then rewound state else state

unfoldable pub untruncated : ℕ → State → State
untruncated size state = if ltb size state.last_offset then rewound state else state

-- The state from which a run reads.
unfoldable pub resume : Text → Option LeaseInfo → FileInfo → State → State
resume log_path lease info saved =
    untruncated info.size
      (unrotated (build_source_fingerprint info) (with_lease (at_path log_path saved) lease))

-- What a run reports of the state that it has saved; the source type `csvlog` and the status `Active`
-- are always the same.
pub record IngestionState : Type 0 where
  pub database_type : Text
  pub database_name : Text
  pub source_path : Text
  pub source_fingerprint : Text
  pub last_offset : ℕ
  pub last_line_number : ℕ
  pub last_event_timestamp : Text
  -- the token, the key and the mode of the lease
  pub lease : Option (Text × (Text × Text))

unfoldable pub ingestion_state : CollectorConfig → Option LeaseInfo → State → IngestionState
ingestion_state config lease state = record {
  database_type = config.database_type;
  database_name = config.database_name;
  source_path = state.source_path;
  source_fingerprint = state.source_fingerprint;
  last_offset = state.last_offset;
  last_line_number = state.last_line_number;
  last_event_timestamp = state.last_event_timestamp;
  lease = elim lease [
    | none ↦ none
    | some info ↦ some (info.lease_token, (info.source_key, info.source_mode))
  ];
}

-- Nothing to do, an error with the events before it, or the saved state with the events; what is
-- reported of the state is its `ingestion_state`.
pub data Outcome : Type 0 where
  nothing : Outcome
  failed : List LogEvent → Outcome
  collected : State → List LogEvent → Outcome

-- The state after the rows, the events, and whether the reader failed.
pub record Collected : Type 0 where
  pub state : State
  pub events : List LogEvent
  pub is_broken : Bool

module _ (formats : Formats) (config : CollectorConfig) (log_path : Text) where
  -- The loop over the rows; `count` is the reader's count of the bytes taken from the file.
  unfoldable pub collect_rows : ℕ → ℕ → State → Reads → Collected
  collect_rows zero count state reads = record { state = state; events = []; is_broken = false }
  collect_rows (suc more) count state end_of_file = record {
    state = state;
    events = [];
    is_broken = false;
  }
  collect_rows (suc more) count state broken = record {
    state = state;
    events = [];
    is_broken = true;
  }
  collect_rows (suc more) count state (row fields taken reads) =
      let line = state.last_line_number + 1 in
      let offset = state.last_offset + (count + taken) in
      let event = map_event formats config log_path line offset state.headers fields in
      let time = event.event_timestamp in
      let rest =
        collect_rows more (count + taken)
          (record state {
            last_offset = offset;
            last_line_number = line;
            last_event_timestamp = if is_empty time then state.last_event_timestamp else time;
          })
          reads in
      record rest { events = event ∷ rest.events }

  -- The end of a run, after the loop.
  unfoldable pub finish : Disk → FileInfo → Collected → Outcome
  finish disk info c =
      if c.is_broken
      then failed c.events
      else if not disk.is_saved
      then failed c.events
      else collected
          (record c.state {
            source_path = log_path;
            source_fingerprint = build_source_fingerprint info;
          })
          c.events

  -- The header is read at the start of the file.
  unfoldable pub read_file : Disk → FileInfo → State → Reads → Outcome
  read_file disk info state reads =
      if state.last_offset == 0
      then elim reads [
        | end_of_file ↦ nothing
        | broken ↦ failed []
        | row headers taken rest ↦ finish disk info (
            collect_rows (row_limit config.max_rows) 0
              (record state { headers = headers; last_offset = taken }) rest)
      ]
      else finish disk info (collect_rows (row_limit config.max_rows) 0 state reads)

-- `Collect`; a `collected` state is saved to the disk, and no other is.
unfoldable pub collect : Formats → CollectorConfig → Option LeaseInfo → Disk → Outcome
collect formats config lease disk =
    let log_path = trim_space config.log_path in
    if is_empty log_path then nothing else elim disk.info [
      | none ↦ failed []
      | some info ↦ elim disk.saved [
        | none ↦ failed []
        | some saved ↦
            let state = resume log_path lease info saved in
            elim (disk.reads_from state.last_offset) [
              | none ↦ failed []
              | some reads ↦ read_file formats config log_path disk info state reads
            ]
      ]
    ]
