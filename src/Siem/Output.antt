-- ===== src/Siem/Output.antt =====
-- The coordinator of the SIEM path (pkg/siem/output.go): `EmitFindings` and `Flush` over the
-- deduplicator, if there is one, and the queue. The log lines are left out.
pub mod Laws
pub mod Close
pub mod Open
pub mod Ticker
use basecheck_agent.Prelude.{
  ℕ, String, Bool, true, false, not, ◌||◌, ◌&&◌, Option, none, some, List, [], ◌∷◌, ◌++◌,
  if◌then◌else◌, str_eq,
}
use basecheck_agent.Siem.Fault.{Fault}
use basecheck_agent.Siem.Event.{Time, Event}
use basecheck_agent.Siem.Context.{FindingContext}
use basecheck_agent.Siem.Converter.{ControlResult, convert_findings}
use basecheck_agent.Siem.Queue.{Queue}
use basecheck_agent.Siem.Queue.Store.{Codec, File}
use basecheck_agent.Siem.Queue.Enqueue.{EnqueueEnv, Enqueued, QueueError, enqueue}
use basecheck_agent.Siem.Queue.Flush.{FlushEnv, FlushError, FlushResult, Flushed, flush}
use basecheck_agent.Siem.Dedup.{DedupEntry, Deduplicator, window_duration}
use basecheck_agent.Siem.Dedup.Store.{DedupEnv, Step, filter, release, record_delivered}
use basecheck_agent.Siem.Dedup.Lifecycle.{determine_lifecycle, detect_remediations}

-- Functions of Go's libraries, and the format of the queue's file.
pub record Library : Type 0 where
  pub to_lower : String → String
  pub to_upper : String → String
  -- `strings.ToLower` of `strings.TrimSpace`
  pub normalize : String → String
  pub bytes : String → List ℕ
  pub digest : List ℕ → String
  pub codec : Codec

-- The output and the two files that it works on.
pub record Output : Type 0 where
  pub dedup : Option Deduplicator
  pub dedup_file : List DedupEntry
  pub queue : Queue
  pub queue_file : File

pub record EmitEnv : Type 0 where
  pub now : Time
  pub detecting : Time
  pub filtering : DedupEnv
  pub enqueueing : EnqueueEnv
  pub releasing : DedupEnv

pub record Emitted : Type 0 where
  pub output : Output
  pub emitted : ℕ
  pub rejected : ℕ
  pub error : Option QueueError

-- `executedControls[code]`
unfoldable pub executed_controls : List ControlResult → String → Bool
executed_controls [] code = false
executed_controls (result ∷ results) code =
    (not (str_eq result.status "ERROR") && str_eq result.control_code code)
    || executed_controls results code

-- `currentFingerprints[fp]`
unfoldable pub current_fingerprints : List Event → String → Bool
current_fingerprints [] fp = false
current_fingerprints (e ∷ es) fp = str_eq e.fingerprint fp || current_fingerprints es fp

abbrev pub with_step {ℓ} : {A : Type ℓ} → Output → Step A → Output
with_step o s = record o { dedup = some s.dedup; dedup_file = s.file }

-- The deferred part of a failed `Enqueue`.
unfoldable pub release_all : DedupEnv → Output → List Event → Output
release_all env o events = elim o.dedup [
  | none ↦ o
  | some d ↦ with_step o (release env d o.dedup_file events)
]

-- What follows `Enqueue`: its error releases the reservations of the filter.
unfoldable pub enqueue_result : EmitEnv → Output → List Event → Enqueued → Emitted
enqueue_result env o events q =
    let after = record o { queue = q.queue; queue_file = q.file } in
    elim q.error [
      | some x ↦ record {
        output = release_all env.releasing after events;
        emitted = 0;
        rejected = q.rejected;
        error = some x;
      }
      | none ↦ record { output = after; emitted = q.enqueued; rejected = q.rejected; error = none }
    ]

module _ (lib : Library) where
  -- What follows the filter.
  unfoldable pub enqueue_filtered : EmitEnv → Output → List Event → Emitted
  enqueue_filtered env o [] = record { output = o; emitted = 0; rejected = 0; error = none }
  enqueue_filtered env o (e ∷ es) =
      enqueue_result env o (e ∷ es)
        (enqueue lib.to_upper lib.codec env.enqueueing o.queue o.queue_file (e ∷ es))

  -- What follows the lifecycle.
  unfoldable pub emit_events : EmitEnv → Output → List Event → Emitted
  emit_events env o [] = record { output = o; emitted = 0; rejected = 0; error = none }
  emit_events env o (e ∷ es) = elim o.dedup [
    | none ↦ enqueue_filtered env o (e ∷ es)
    | some d ↦
        let s = filter env.filtering d o.dedup_file (e ∷ es) in
        enqueue_filtered env (with_step o s) s.result
  ]

  -- The findings in their places of the lifecycle, and the findings that are gone.
  unfoldable pub with_lifecycle :
      Time
      → Option Deduplicator
      → String
      → FindingContext
      → List ControlResult
      → List Event
      → List Event
  with_lifecycle now none system_id ctx results events = events
  with_lifecycle now (some d) system_id ctx results events =
      determine_lifecycle d.cache events
      ++ detect_remediations now (window_duration d) system_id (current_fingerprints events)
          (executed_controls results) ctx d.cache

  unfoldable pub emit_findings :
      EmitEnv → FindingContext → Output → List ControlResult → String → String → String → Emitted
  emit_findings env run o results system_id system_name database_engine =
      let ctx = record run {
        system_id = system_id;
        system_name = system_name;
        database_engine = lib.normalize database_engine;
      } in
      let events =
        convert_findings lib.to_lower lib.normalize lib.bytes lib.digest ctx env.now results in
      emit_events env o (with_lifecycle env.detecting o.dedup system_id ctx results events)

pub record OutputFlushEnv : Type 0 where
  pub flushing : FlushEnv
  pub recording : DedupEnv
  pub releasing : DedupEnv

pub record OutputFlushed : Type 0 where
  pub output : Output
  pub delivered_count : ℕ
  pub error : Option FlushError

-- `RecordDelivered` if anything was delivered.
unfoldable pub record_result : DedupEnv → Output → List Event → Output
record_result env o [] = o
record_result env o (e ∷ es) = elim o.dedup [
  | none ↦ o
  | some d ↦ with_step o (record_delivered env d o.dedup_file (e ∷ es))
]

-- A release of no events is skipped.
unfoldable pub release_abandoned : DedupEnv → Output → List Event → Output
release_abandoned env o [] = o
release_abandoned env o (e ∷ es) = release_all env o (e ∷ es)

-- What follows the flush of the queue.
unfoldable pub settle : OutputFlushEnv → Output → Flushed → OutputFlushed
settle env o f =
    let after = record o { queue = f.queue; queue_file = f.file } in
    let recorded = record_result env.recording after f.result.delivered in
    record {
      output = release_abandoned env.releasing recorded f.result.abandoned;
      delivered_count = f.result.delivered_count;
      error = f.result.error;
    }

-- `none` is a run-time panic of the delivery.
unfoldable pub flush_output : Codec → OutputFlushEnv → Output → (File → File) → Option OutputFlushed
flush_output c env o meanwhile = elim (flush c env.flushing o.queue o.queue_file meanwhile) [
  | none ↦ none
  | some f ↦ some (settle env o f)
]
