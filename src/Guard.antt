-- ===== src/Guard.antt =====
-- The guard that lets only read-only SQL through (pkg/database/query_guard.go), for the engines
-- other than MSSQL. A text is a list of bytes, and it is ASCII: Go's case folding and its spaces
-- go further outside ASCII.
pub mod Sanitize
pub mod Words
pub mod Statements
pub mod Laws
mod Examples
use basecheck_agent.Prelude.{
  ℕ, suc, String, Bool, true, false, not, ◌||◌, Option, none, some, List, [], ◌∷◌, ltb,
  if◌then◌else◌, ◌==◌,
}
use basecheck_agent.Guard.Sanitize.{sanitize_sql}
use basecheck_agent.Guard.Words.{
  trim_left, contains_word, any_word, matches_word, contains_match, execute_immediate, write_pragma,
}
use basecheck_agent.Text.{is_space, text}

pub data Engine : Type 0 where
  oracle : Engine
  postgres : Engine
  supabase : Engine
  sqlite : Engine

pub data GuardError : Type 0 where
  empty_sql : GuardError
  forbidden_statement : GuardError
  multiple_statements : GuardError
  write_pragma_statement : GuardError
  bad_leading_word : GuardError

abbrev pub admin_words : List String
admin_words =
    "DROP" ∷ "ALTER" ∷ "CREATE" ∷ "GRANT" ∷ "REVOKE" ∷ "DENY" ∷ "BACKUP" ∷ "RESTORE" ∷ "SHUTDOWN"
    ∷ "KILL" ∷ "RECONFIGURE" ∷ []

abbrev pub dml_words : List String
dml_words = "INSERT" ∷ "UPDATE" ∷ "DELETE" ∷ "MERGE" ∷ "TRUNCATE" ∷ []

abbrev pub postgres_words : List String
postgres_words = "COPY" ∷ "DO" ∷ "LISTEN" ∷ "NOTIFY" ∷ "REFRESH" ∷ "CLUSTER" ∷ []

abbrev pub sqlite_words : List String
sqlite_words = "VACUUM" ∷ "REINDEX" ∷ "ATTACH" ∷ "DETACH" ∷ []

abbrev pub standard_leading : List String
standard_leading = "SELECT" ∷ "WITH" ∷ "EXPLAIN" ∷ []

abbrev pub sqlite_leading : List String
sqlite_leading = "SELECT" ∷ "WITH" ∷ "EXPLAIN" ∷ "PRAGMA" ∷ []

-- `strings.TrimSpace(part) == ""`
unfoldable pub is_blank : List ℕ → Bool
is_blank [] = true
is_blank (c ∷ cs) = if is_space c then is_blank cs else false

-- The parts between the `;`s that are not blank, where `blank` says whether the part read so far is.
unfoldable pub statements : Bool → List ℕ → ℕ
statements blank [] = if blank then 0 else 1
statements blank (c ∷ cs) =
    let rest = statements true cs in
    let same = statements (if is_space c then blank else false) cs in
    if c == b';' then (if blank then rest else suc rest) else same

unfoldable pub require_single_statement : List ℕ → Option GuardError
unfolding statements
require_single_statement sanitized =
    if ltb 1 (statements true sanitized) then some multiple_statements else none

-- One of the words leads the text, after its spaces.
unfoldable pub leads : List String → List ℕ → Bool
leads [] sanitized = false
leads (w ∷ ws) sanitized = matches_word (text w) (trim_left sanitized) || leads ws sanitized

unfoldable pub validate_sqlite : List ℕ → Option GuardError
validate_sqlite sanitized = elim (require_single_statement sanitized) [
  | some e ↦ some e
  | none ↦
      if any_word dml_words sanitized
      then some forbidden_statement
      else if any_word sqlite_words sanitized
      then some forbidden_statement
      else if contains_match write_pragma false sanitized
      then some write_pragma_statement
      else if not (leads sqlite_leading sanitized)
      then some bad_leading_word
      else none
]

-- What Oracle forbids beside the standard words, and what Postgres and Supabase do.
unfoldable pub engine_forbids : Engine → List ℕ → Bool
engine_forbids oracle sanitized = contains_match execute_immediate false sanitized
engine_forbids postgres sanitized = any_word postgres_words sanitized
engine_forbids supabase sanitized = any_word postgres_words sanitized
engine_forbids sqlite sanitized = false

unfoldable pub validate_standard : Engine → List ℕ → Option GuardError
validate_standard engine sanitized = elim (require_single_statement sanitized) [
  | some e ↦ some e
  | none ↦
      if any_word dml_words sanitized
      then some forbidden_statement
      else if contains_word (text "CALL") false sanitized
      then some forbidden_statement
      else if contains_word (text "INTO") false sanitized
      then some forbidden_statement
      else if engine_forbids engine sanitized
      then some forbidden_statement
      else if not (leads standard_leading sanitized)
      then some bad_leading_word
      else none
]

unfoldable pub validate_engine : Engine → List ℕ → Option GuardError
validate_engine sqlite sanitized = validate_sqlite sanitized
validate_engine oracle sanitized = validate_standard oracle sanitized
validate_engine postgres sanitized = validate_standard postgres sanitized
validate_engine supabase sanitized = validate_standard supabase sanitized

unfoldable pub validate_read_only_query : Engine → List ℕ → Option GuardError
validate_read_only_query engine sql =
    let sanitized = sanitize_sql sql in
    if is_blank sanitized
    then some empty_sql
    else if any_word admin_words sanitized
    then some forbidden_statement
    else validate_engine engine sanitized
