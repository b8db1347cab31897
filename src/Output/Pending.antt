-- ===== src/Output/Pending.antt =====
-- The results that wait for the backend (pkg/output/output.go): sending a result, the directory of
-- pending files and its limits, and the upload of the pending files. The clock's file names, the
-- file system's errors and the backend's answers are inputs; log lines and the backup file, whose
-- errors are only logged, are left out.
pub mod Laws
pub mod Draining
use basecheck_agent.Prelude.{
  ℕ, suc, ◌+◌, Bool, true, false, not, ◌&&◌, Option, none, some, List, [], ◌∷◌, ◌++◌, length, keep,
  if◌then◌else◌, leb, ltb, ◌==◌,
}
use basecheck_agent.Text.{Text, is_empty, text_eq}
use basecheck_agent.Text.Order.{sort_by}
use basecheck_agent.Config.Validation.{is_insecure_url}

abbrev pub pending_max_files : ℕ
pending_max_files = 200

abbrev pub pending_max_total_bytes : ℕ
pending_max_total_bytes = 536870912

abbrev pub upload_max_files_per_run : ℕ
upload_max_files_per_run = 10

abbrev pub upload_max_bytes_per_run : ℕ
upload_max_bytes_per_run = 52428800

-- A file `*.json` of the directory.
pub record PendingFile : Type 0 where
  pub name : Text
  pub content : Text

pub data OutputFault : Type 0 where
  missing_url : OutputFault
  insecure_url : OutputFault
  bad_request : OutputFault
  unreadable : OutputFault
  uninspected : OutputFault
  queue_full : OutputFault
  disk_error : OutputFault

abbrev pub total_size : List PendingFile → ℕ
total_size [] = 0
total_size (file ∷ files) = length file.content + total_size files

-- `ensureQueueCapacity`; `inspected` is false if a file cannot be inspected.
unfoldable pub ensure_queue_capacity : Bool → ℕ → List PendingFile → Option OutputFault
ensure_queue_capacity inspected next_file_size files =
    if not inspected
    then some uninspected
    else if leb pending_max_files (length files)
    then some queue_full
    else if ltb pending_max_total_bytes (total_size files + next_file_size)
    then some queue_full
    else none

-- What the file system makes of a new file: whether there is a directory, the files in it can be
-- inspected, the temporary file is written, and it is renamed.
pub record Disk : Type 0 where
  pub has_directory : Bool
  pub inspected : Bool
  pub written : Bool
  pub renamed : Bool

-- The directory behind an operation, and the error of it.
pub record Stored : Type 0 where
  pub fault : Option OutputFault
  pub files : List PendingFile

-- A rename replaces a file of the same name.
abbrev pub replace : PendingFile → List PendingFile → List PendingFile
replace file files = file ∷ keep (λ other. not (text_eq other.name file.name)) files

-- `QueueResult`
unfoldable pub queue_result : Disk → PendingFile → List PendingFile → Stored
queue_result disk file files =
    let full = ensure_queue_capacity disk.inspected (length file.content) files in
    if not disk.has_directory
    then record { fault = some disk_error; files = files }
    else elim full [
      | some e ↦ record { fault = some e; files = files }
      | none ↦
          if disk.written && disk.renamed
          then record { fault = none; files = replace file files }
          else record { fault = some disk_error; files = files }
    ]

-- What comes of a request: it cannot be made, there is no answer, or one with its status code.
pub data Posted : Type 0 where
  not_made : Posted
  no_answer : Posted
  answered : ℕ → Posted

-- `writeToHTTP`
unfoldable pub write_to_http :
    Text → Bool → Bool → Posted → Disk → PendingFile → List PendingFile → Stored
write_to_http url allow_http offline posted disk file files =
    let queued = queue_result disk file files in
    if is_empty url
    then record { fault = some missing_url; files = files }
    else if is_insecure_url url allow_http
    then record { fault = some insecure_url; files = files }
    else if offline
    then queued
    else elim posted [
      | not_made ↦ record { fault = some bad_request; files = files }
      | no_answer ↦ queued
      | answered status ↦ if status == 200 then record { fault = none; files = files } else queued
    ]

-- What the backend and the file system make of each pending file.
pub record Upload : Type 0 where
  pub readable : PendingFile → Bool
  pub posted : PendingFile → Posted
  pub deleted : PendingFile → Bool

-- The files that are uploaded and deleted, and those that stay.
pub record Uploaded : Type 0 where
  pub fault : Option OutputFault
  pub removed : List PendingFile
  pub remaining : List PendingFile

abbrev pub stopped : Option OutputFault → List PendingFile → Uploaded
stopped fault files = record { fault = fault; removed = []; remaining = files }

-- A file whose content is read, the upload of the later files being `rest`.
unfoldable pub upload_file : Upload → PendingFile → List PendingFile → Uploaded → Uploaded
upload_file env file files rest = elim (env.posted file) [
  | not_made ↦ stopped (some bad_request) (file ∷ files)
  | no_answer ↦ stopped none (file ∷ files)
  | answered status ↦
      if status == 200 && env.deleted file
      then record { fault = rest.fault; removed = file ∷ rest.removed; remaining = rest.remaining }
      else stopped none (file ∷ files)
]

-- The loop of `UploadPending`, with the attempts and the uploaded bytes so far.
unfoldable pub upload_from : Upload → ℕ → ℕ → List PendingFile → Uploaded
upload_from env attempts bytes [] = stopped none []
upload_from env attempts bytes (file ∷ files) =
    let size = length file.content in
    let rest = upload_from env (suc attempts) (bytes + size) files in
    if leb upload_max_files_per_run attempts
    then stopped none (file ∷ files)
    else if not (env.readable file)
    then stopped (some unreadable) (file ∷ files)
    else if ltb 0 attempts && ltb upload_max_bytes_per_run (bytes + size)
    then stopped none (file ∷ files)
    else upload_file env file files rest

-- The files go in the order of their names.
abbrev pub file_key : PendingFile → List Text
file_key file = file.name ∷ []

-- `UploadPending`
unfoldable pub upload_pending : Text → Bool → Upload → List PendingFile → Uploaded
upload_pending url allow_http env files =
    if is_empty url
    then stopped (some missing_url) files
    else if is_insecure_url url allow_http
    then stopped (some insecure_url) files
    else upload_from env 0 0 (sort_by file_key files)
