-- ===== src/Siem/Output/Open.antt =====
-- `NewOutput` of pkg/siem/output.go on the files that it finds: the destination, the dead-letter
-- file, the queue and the deduplicator are made in this order, and an error of one ends it. The
-- periodic flush that it starts is the subject of Siem/Output/Ticker.
pub mod Laws
use basecheck_agent.Prelude.{
  Bool, Option, none, some, List, ℤ, pos, is_nonpos, Result, ok, err, if◌then◌else◌,
}
use basecheck_agent.Text.{Text}
use basecheck_agent.Config.Siem.{Url}
use basecheck_agent.Siem.Fault.{Fault}
use basecheck_agent.Siem.Destination.{DestinationConfig, Destination, new_destination}
use basecheck_agent.Siem.Queue.{QueueConfig, Queue}
use basecheck_agent.Siem.Queue.Store.{Codec, File}
use basecheck_agent.Siem.Queue.Flush.{FlushEnv, close}
use basecheck_agent.Siem.Queue.Open.{OpenEnv, OpenError, Opened, new_queue}
use basecheck_agent.Siem.Dedup.{DedupEntry, Deduplicator}
use basecheck_agent.Siem.Dedup.Store.{
  DedupEnv, OpenedDedup, opened, lock_failed, moved, stuck, new_deduplicator,
}
use basecheck_agent.Siem.Output.{Output}

-- Without the dead-letter file's size and the finding context, which are passed on as they are.
pub record OutputConfig : Type 0 where
  pub destination : DestinationConfig
  pub queue : QueueConfig
  pub has_dead_letter : Bool
  pub deduplication_disabled : Bool
  pub deduplication_window_hours : ℤ

-- The errors that the parts meet; `closing` is for the flush of a queue that is given up.
pub record StartEnv : Type 0 where
  pub dead_letter : Option Fault
  pub queue : OpenEnv
  pub dedup : DedupEnv
  pub rename : Option Fault
  pub closing : FlushEnv

pub data StartError : Type 0 where
  bad_destination : StartError
  dead_letter_failed : Fault → StartError
  queue_failed : OpenError → StartError
  dedup_failed : OpenedDedup → StartError

-- The output with its destination and the interval of its flushes, or the error; the file of the
-- queue, the one that was put aside for it, and the file of the deduplicator.
pub record Started : Type 0 where
  pub result : Result StartError (Output × (Destination × ℤ))
  pub queue_file : File
  pub corrupt : File
  pub dedup_file : List DedupEntry

-- Nothing has been opened yet.
abbrev pub not_started : StartError → File → List DedupEntry → Started
not_started x file dedup_file = record {
  result = err x;
  queue_file = file;
  corrupt = none;
  dedup_file = dedup_file;
}

unfoldable pub flush_interval : QueueConfig → ℤ
flush_interval cfg =
    if is_nonpos cfg.flush_interval_seconds then pos 10 else cfg.flush_interval_seconds

abbrev pub started_with :
    OutputConfig → Destination → Option Deduplicator → Queue → File → List DedupEntry → Started
started_with cfg dest dedup q file dedup_file = record {
  result = ok (
    record { dedup = dedup; dedup_file = dedup_file; queue = q; queue_file = file },
    (dest, flush_interval cfg.queue),
  );
  queue_file = file;
  corrupt = none;
  dedup_file = dedup_file;
}

module _ (c : Codec) (env : StartEnv) (cfg : OutputConfig) where
  -- The deduplicator fails, and the queue is closed, which flushes it; `none` is a run-time panic.
  unfoldable pub give_up : OpenedDedup → Queue → File → List DedupEntry → Option Started
  give_up x q file dedup_file = elim (close c env.closing q file (λ f. f)) [
    | none ↦ none
    | some f ↦ some (not_started (dedup_failed x) f.file dedup_file)
  ]

  -- What follows the deduplicator.
  unfoldable pub after_dedup :
      Destination → Queue → File → List DedupEntry → OpenedDedup → Option Started
  after_dedup dest q file after (opened dedup) =
      some (started_with cfg dest (some dedup) q file after)
  after_dedup dest q file after (lock_failed e) = give_up (lock_failed e) q file after
  after_dedup dest q file after (moved e) = give_up (moved e) q file after
  after_dedup dest q file after (stuck e x) = give_up (stuck e x) q file after

  unfoldable pub start_dedup : Destination → Queue → File → List DedupEntry → Option Started
  start_dedup dest q file dedup_file =
      let (d, after) =
        new_deduplicator env.dedup env.rename cfg.deduplication_window_hours dedup_file in
      let rest = after_dedup dest q file after d in
      if cfg.deduplication_disabled
      then some (started_with cfg dest none q file dedup_file)
      else rest

  -- What follows the queue.
  unfoldable pub after_queue : Destination → List DedupEntry → Opened → Option Started
  after_queue dest dedup_file q = elim q.result [
    | err x ↦ some (record {
      result = err (queue_failed x);
      queue_file = q.file;
      corrupt = q.corrupt;
      dedup_file = dedup_file;
    })
    | ok queue ↦ start_dedup dest queue q.file dedup_file
  ]

  unfoldable pub start_queue : Destination → File → List DedupEntry → Option Started
  start_queue dest file dedup_file =
      after_queue dest dedup_file (new_queue c env.queue cfg.queue file)

  -- The dead-letter file, if one is configured.
  unfoldable pub start_dead_letter : Destination → File → List DedupEntry → Option Started
  start_dead_letter dest file dedup_file =
      let rest = start_queue dest file dedup_file in
      if cfg.has_dead_letter
      then elim env.dead_letter [
        | some e ↦ some (not_started (dead_letter_failed e) file dedup_file)
        | none ↦ rest
      ]
      else rest

  unfoldable pub new_output : (Text → Option Url) → Text → File → List DedupEntry → Option Started
  new_output parse_url machine file dedup_file =
      elim (new_destination parse_url machine cfg.destination) [
        | none ↦ some (not_started bad_destination file dedup_file)
        | some dest ↦ start_dead_letter dest file dedup_file
      ]
