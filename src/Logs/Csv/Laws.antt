-- ===== src/Logs/Csv/Laws.antt =====
-- What a run of the CSV collector takes, and where the next one starts
-- (pkg/logs/postgres/csvlog.go).
use basecheck_agent.Prelude.{
  true, ◌⊎◌, Bool, ℕ, zero, suc, ◌+◌, ◌*◌, ◌≤◌, ◌≡◌, false, ◌==◌, Option, none, some, List, [], ◌∷◌,
  length, arith,
}
use basecheck_agent.Text.{Text, text_eq, is_empty, trim_space}
use basecheck_agent.Logs.Csv.Event.{CollectorConfig, LogEvent, Formats, fields_from, format_record}
use basecheck_agent.Logs.Csv.{
  State, LeaseInfo, FileInfo, Reads, end_of_file, broken, row, Disk, row_limit,
  build_source_fingerprint, Outcome, nothing, failed, collected, collect_rows,
}

-- The rows that the reader gives, up to a limit of them and behind the line `n`: the events are theirs,
-- one for each, in order, with the values of the row under the headers.
abbrev pub IsReadOff : Formats → List Text → ℕ → ℕ → Reads → List LogEvent → Type 0
IsReadOff formats headers zero n reads es = es ≡ []
IsReadOff formats headers (suc more) n end_of_file es = es ≡ []
IsReadOff formats headers (suc more) n broken es = es ≡ []
IsReadOff formats headers (suc more) n (row fields taken reads) [] = ⊥
IsReadOff formats headers (suc more) n (row fields taken reads) (e ∷ es) =
    (e.source_line_number ≡ n + 1)
    × ((e.parsed_record ≡ fields_from headers 0 fields)
        × ((e.raw_record ≡ format_record formats fields)
            × IsReadOff formats headers more (n + 1) reads es))

-- The reader fails before the limit.
abbrev pub IsBrokenWithin : ℕ → Reads → Type 0
IsBrokenWithin zero reads = ⊥
IsBrokenWithin (suc more) end_of_file = ⊥
IsBrokenWithin (suc more) broken = Unit
IsBrokenWithin (suc more) (row fields taken reads) = IsBrokenWithin more reads

-- The end of a run that takes the rows behind the line `start`: it has their events, and fails only
-- if the reader does or the state cannot be saved; else the new state has counted the rows.
abbrev pub IsTaken : Formats → List Text → ℕ → ℕ → Bool → Reads → Outcome → Type 0
IsTaken formats headers limit start is_saved reads nothing = ⊥
IsTaken formats headers limit start is_saved reads (failed es) =
    IsReadOff formats headers limit start reads es
    × ((length es ≤ limit) × (IsBrokenWithin limit reads ⊎ (is_saved ≡ false)))
IsTaken formats headers limit start is_saved reads (collected state es) =
    IsReadOff formats headers limit start reads es
    × ((length es ≤ limit)
        × ((state.last_line_number ≡ start + length es) × (state.headers ≡ headers)))

-- At the start of the file the first row has the headers; elsewhere they are known.
abbrev pub IsOrderly : Formats → ℕ → Bool → ℕ → List Text → Bool → Reads → Outcome → Type 0
IsOrderly formats limit true start headers is_saved end_of_file o = o ≡ nothing
IsOrderly formats limit true start headers is_saved broken o = o ≡ failed []
IsOrderly formats limit true start headers is_saved (row first taken reads) o =
    IsTaken formats first limit start is_saved reads o
IsOrderly formats limit false start headers is_saved reads o =
    IsTaken formats headers limit start is_saved reads o

-- The same for a run that resumes in a state.
abbrev pub IsResumed : Formats → CollectorConfig → State → Disk → Reads → Outcome → Type 0
IsResumed formats config state disk reads o =
    IsOrderly formats (row_limit config.max_rows) (state.last_offset == 0) state.last_line_number
      state.headers disk.is_saved reads o

-- The fingerprint that the last run left: that of the lease, if there is one.
abbrev pub recorded : Option LeaseInfo → State → Text
recorded none saved = saved.source_fingerprint
recorded (some lease) saved = lease.source_fingerprint

-- The state of a log that was read before, under the same path.
abbrev pub IsOutdated : CollectorConfig → Option LeaseInfo → FileInfo → State → Type 0
IsOutdated config lease info saved =
    (saved.source_path ≡ trim_space config.log_path)
    × ((is_empty (recorded lease saved) ≡ false)
        × (text_eq (recorded lease saved) (build_source_fingerprint info) ≡ false))

-- Rows that the reader has in its buffer, behind the one that filled it.
abbrev pub IsBuffered : Reads → Type 0
IsBuffered end_of_file = Unit
IsBuffered broken = Unit
IsBuffered (row fields taken reads) = (taken ≡ 0) × IsBuffered reads

step : (o n c r : ℕ) → r ≡ (o + c) + n * c → r ≡ o + suc n * c
step o n c r h = omega (arith, h)

-- The bytes that the reader has taken are added to the offset again for every row that it
-- then gives out of its buffer.
pub collect_rows_overcounts :
    (formats : Formats) (config : CollectorConfig) (log_path : Text) (more count : ℕ)
    (state : State) (reads : Reads)
    → IsBuffered reads
    → (let c = collect_rows formats config log_path more count state reads in
        c.state.last_offset ≡ state.last_offset + length c.events * count)
unfolding collect_rows
collect_rows_overcounts formats config log_path zero count state reads h = omega arith
collect_rows_overcounts formats config log_path (suc more) count state end_of_file h = omega arith
collect_rows_overcounts formats config log_path (suc more) count state broken h = omega arith
collect_rows_overcounts formats config log_path (suc more) count state (row fields taken reads)
      (z, h) =
    let e : count + taken ≡ count = omega (arith, z) in
    rw e (step _ _ _ _ (collect_rows_overcounts formats config log_path more count _ reads h))
