-- ===== src/Control/Capture.antt =====
-- The capture of evidence under a lease (pkg/controlset/executor.go). The backend leases each source
-- of evidence to one agent at a time and says where the last run stopped. The hash of a source's
-- name, JSON, the backend's replies and the database are inputs.
pub mod Laws
use basecheck_agent.Prelude.{
  ℕ, Bool, true, false, not, ◌&&◌, ◌||◌, ◌==◌, Option, none, some, List, [], ◌∷◌, ◌++◌, Result, ok,
  err, if◌then◌else◌,
}
use basecheck_agent.Text.{Text, text, text_eq, is_empty, lower, join, trim_space}
use basecheck_agent.Control.Watermark.Conditions.{Watermark, Datum}
use basecheck_agent.Control.Watermark.{
  apply_default_evidence_window, build_incremental_evidence_sql, calculate_evidence_watermark,
}

pub record Lease : Type 0 where
  pub lease_token : Text
  pub source_key : Text
  pub source_mode : Text
  pub watermark_json : Text

pub record Evidence : Type 0 where
  pub evidence_type : Text
  pub source_mode : Text
  pub source_path : Text
  pub sql : Text

-- The executor, as far as the capture uses it. The leases are a map by the key of their source.
pub record Executor : Type 0 where
  pub use_ingestion_state : Bool
  pub database_type : Text
  pub database_name : Text
  pub leases : Text → Option Lease

-- The backend's answer: the status and the lease that its body decodes to.
pub record Reply : Type 0 where
  pub status_code : ℕ
  pub decoded : Option Lease

-- Whether the URL is refused, and the reply, or any failure of the request.
pub record Backend : Type 0 where
  pub insecure : Bool
  pub reply : Option Reply

-- The errors without their texts.
pub data LeaseError : Type 0 where
  unavailable : LeaseError

-- The second result is the executor with the new lease.
abbrev pub Acquired : Type 0
Acquired = Result LeaseError (Option Lease) × Executor

abbrev pub store : Executor → Text → Lease → Executor
store executor key lease = record executor {
  leases = λ k. if text_eq k key then some lease else executor.leases k;
}

-- A lease that names no source is for the one that was asked for.
unfoldable pub keyed : Text → Lease → Lease
keyed key lease =
    if is_empty (trim_space lease.source_key) then record lease { source_key = key } else lease

-- The checks of a decoded lease.
unfoldable pub accept_lease : Executor → Text → Lease → Acquired
accept_lease executor key lease =
    if is_empty (trim_space lease.lease_token)
    then (err unavailable, executor)
    else if not (text_eq (trim_space (keyed key lease).source_key) key)
    then (err unavailable, executor)
    else (ok (some (keyed key lease)), store executor key (keyed key lease))

unfoldable pub read_reply : Executor → Text → Reply → Acquired
read_reply executor key reply =
    if reply.status_code == 409
    then (ok none, executor)
    else if not (reply.status_code == 200)
    then (err unavailable, executor)
    else elim reply.decoded [
      | none ↦ (err unavailable, executor)
      | some lease ↦ accept_lease executor key lease
    ]

unfoldable pub request_lease : Executor → Backend → Text → Acquired
request_lease executor backend key =
    if backend.insecure then (err unavailable, executor) else elim backend.reply [
      | none ↦ (err unavailable, executor)
      | some reply ↦ read_reply executor key reply
    ]

unfoldable pub acquire_evidence_lease : Executor → Backend → Text → Text → Acquired
acquire_evidence_lease executor backend mode key =
    if text_eq mode (text "activity") then (ok none, executor) else elim (executor.leases key) [
      | some lease ↦ (ok (some lease), executor)
      | none ↦ request_lease executor backend key
    ]

unfoldable pub classify_evidence_source_mode : Text → Text
classify_evidence_source_mode evidence =
    if text_eq evidence (text "privilege_changes")
      || (text_eq evidence (text "role_grants") || text_eq evidence (text "privilege_grants"))
    then text "snapshot"
    else if text_eq evidence (text "audit_operations_live")
    then text "activity"
    else text "history"

unfoldable pub build_evidence_source_key : (Text → Text) → Text → Text → Text → Text → Text
build_evidence_source_key hash database name evidence path = hash (
    join
      (lower (trim_space database) ∷ trim_space name ∷ trim_space evidence ∷ trim_space path ∷ [])
      (text "|"))

pub record CaptureResult : Type 0 where
  pub source_mode : Text
  pub source_key : Text
  pub lease_token : Text
  pub data_rows : List Watermark
  pub watermark : Text
  pub skipped : Bool
  pub failed : Bool

abbrev pub capture_mode : Evidence → Text
capture_mode evidence =
    if is_empty (trim_space evidence.source_mode)
    then classify_evidence_source_mode evidence.evidence_type
    else evidence.source_mode

-- The key of the source that an executor captures evidence from.
abbrev pub key_of : (Text → Text) → Executor → Evidence → Text
key_of hash executor evidence =
    let given = trim_space evidence.source_path in
    build_evidence_source_key hash executor.database_type executor.database_name
      evidence.evidence_type (if is_empty given then evidence.evidence_type else given)

abbrev pub empty_result : Text → Text → CaptureResult
empty_result mode key = record {
  source_mode = mode;
  source_key = key;
  lease_token = [];
  data_rows = [];
  watermark = [];
  skipped = false;
  failed = false;
}

-- What to send to the database, and under which lease.
pub data Plan : Type 0 where
  skip : Plan
  query : Text → Option Lease → Plan

module _ (decode : Text → Option Watermark) (encode : List (Text × Datum) → Option Text) where
  -- Without a lease because of an error the default window is used; without one because another
  -- agent holds it the source is skipped.
  unfoldable pub plan_of : Executor → Evidence → Result LeaseError (Option Lease) → Plan
  plan_of executor evidence (err e) =
      query
        (apply_default_evidence_window executor.database_type evidence.evidence_type evidence.sql)
        none
  plan_of executor evidence (ok none) = skip
  plan_of executor evidence (ok (some lease)) =
      query
        (build_incremental_evidence_sql decode executor.database_type evidence.evidence_type
          evidence.sql lease.watermark_json)
        (some lease)

  -- The result before the query, under the lease.
  abbrev pub leased : CaptureResult → Option Lease → CaptureResult
  leased result none = result
  leased result (some lease) = record result {
    lease_token = lease.lease_token;
    source_key = lease.source_key;
    source_mode = if is_empty lease.source_mode then result.source_mode else lease.source_mode;
  }

  abbrev pub watermark_after : Executor → Evidence → List Watermark → Option Lease → Text
  watermark_after executor evidence rows none = []
  watermark_after executor evidence rows (some lease) =
      calculate_evidence_watermark encode executor.database_type evidence.evidence_type rows
        lease.watermark_json

  unfoldable pub run_plan :
      Executor → (Text → Option (List Watermark)) → Evidence → CaptureResult → Plan → CaptureResult
  run_plan executor database evidence result skip = record result { skipped = true }
  run_plan executor database evidence result (query sql lease) = elim (database sql) [
    | none ↦ record (leased result lease) { failed = true }
    | some rows ↦ record (leased result lease) {
      data_rows = rows;
      watermark = watermark_after executor evidence rows lease;
    }
  ]

  unfoldable pub execute_evidence_capture :
      (Text → Text)
      → Executor
      → Backend
      → (Text → Option (List Watermark))
      → Evidence
      → CaptureResult × Executor
  execute_evidence_capture hash executor backend database evidence =
      let mode = capture_mode evidence in
      let key = key_of hash executor evidence in
      let start = empty_result mode key in
      if is_empty (trim_space evidence.sql)
      then (record start { failed = true }, executor)
      else if executor.use_ingestion_state && not (text_eq mode (text "activity"))
      then (
        run_plan executor database evidence start
            (plan_of executor evidence (acquire_evidence_lease executor backend mode key).0),
        (acquire_evidence_lease executor backend mode key).1,
      )
      else (run_plan executor database evidence start (query evidence.sql none), executor)
