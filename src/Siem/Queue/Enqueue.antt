-- ===== src/Siem/Queue/Enqueue.antt =====
-- `Queue.Enqueue` of pkg/siem/queue.go. `fresh` supplies the UUIDs, and the locks, the file system
-- and the dead-letter file answer through an `EnqueueEnv`. The result carries the queue and the
-- persist file as they are afterwards.
pub mod Laws
use basecheck_agent.Prelude.{
  ℕ, suc, ◌+◌, String, Bool, true, false, Option, none, some, List, [], ◌∷◌, ◌++◌, Result, ok, err,
  length, ltb, to_ℕ, if◌then◌else◌, str_eq,
}
use basecheck_agent.Siem.Fault.{Fault}
use basecheck_agent.Siem.Event.{Event, EventExport}
use basecheck_agent.Siem.Event.Validation.{is_valid}
use basecheck_agent.Siem.Queue.{Queue, QueueConfig}
use basecheck_agent.Siem.Queue.Store.{Codec, File, StoreError, load_persisted_events, persist}

pub data QueueError : Type 0 where
  queue_closed : QueueError
  lock_failed : Fault → QueueError
  reload_failed : StoreError → QueueError
  queue_full : ℕ → ℕ → QueueError
  persist_failed : Fault → QueueError

pub record EnqueueEnv : Type 0 where
  -- the UUID for the event at a position
  pub fresh : ℕ → String
  -- the error of taking the lock of the persist file, of reading the file, and of writing it
  pub lock : Option Fault
  pub read : Option Fault
  pub write : Option Fault
  -- whether the queue is closed by another goroutine while this one validates and waits
  pub closing : Bool
  -- the error of writing an event to the dead-letter file, if one is configured
  pub dead_letter : Option (Event → Option Fault)

-- `if e.Export != nil && e.Export.DeliveryID == ""`
unfoldable pub assign_delivery_id : String → Event → Event
assign_delivery_id id e = elim e.export [
  | none ↦ e
  | some x ↦
      if str_eq x.delivery_id ""
      then record e { export = some (record x { delivery_id = id }) }
      else e
]

-- The split of a batch: what is to be queued, how many events are rejected, and which of those the
-- dead-letter file has.
pub record Admission : Type 0 where
  pub valid : List Event
  pub rejected : ℕ
  pub dead_lettered : List Event

abbrev dead_letter_one : Option (Event → Option Fault) → Event → List Event → List Event
dead_letter_one none e dead = dead
dead_letter_one (some write) e dead = elim (write e) [ none ↦ e ∷ dead | some _ ↦ dead ]

module _ (to_upper : String → String) (env : EnqueueEnv) where
  -- The loop over the events; `i` is the position of the first.
  unfoldable pub admit : ℕ → List Event → Admission
  admit i [] = record { valid = []; rejected = 0; dead_lettered = [] }
  admit i (e ∷ es) =
      let rest = admit (suc i) es in
      let named = assign_delivery_id (env.fresh i) e in
      if is_valid to_upper named then record rest { valid = named ∷ rest.valid } else record {
        valid = rest.valid;
        rejected = suc rest.rejected;
        dead_lettered = dead_letter_one env.dead_letter named rest.dead_lettered;
      }

pub record Enqueued : Type 0 where
  pub queue : Queue
  pub file : File
  pub enqueued : ℕ
  pub rejected : ℕ
  pub error : Option QueueError
  pub dead_lettered : List Event

module _ (to_upper : String → String) (c : Codec) where
  -- An error return: nothing is queued.
  abbrev pub not_enqueued : Queue → File → Admission → QueueError → Enqueued
  not_enqueued q file a x = record {
    queue = q;
    file = file;
    enqueued = 0;
    rejected = a.rejected;
    error = some x;
    dead_lettered = a.dead_lettered;
  }

  -- Under the lock, with the events on disk.
  unfoldable pub enqueue_onto : EnqueueEnv → Queue → File → Admission → List Event → Enqueued
  enqueue_onto env q file a current =
      if ltb (to_ℕ q.config.max_size) (length current + length a.valid)
      then not_enqueued q file a (queue_full (length current) (length a.valid))
      else if q.closed
      then not_enqueued q file a queue_closed
      else let merged = current ++ a.valid in
        let (file', failed) = persist c env.write merged file in
        elim failed [
          | some x ↦ not_enqueued q file' a (persist_failed x)
          | none ↦ record {
            queue = record q { pending = merged };
            file = file';
            enqueued = length a.valid;
            rejected = a.rejected;
            error = none;
            dead_lettered = a.dead_lettered;
          }
        ]

  unfoldable pub enqueue : EnqueueEnv → Queue → File → List Event → Enqueued
  enqueue env q file events =
      if q.closed
      then not_enqueued q file (record { valid = []; rejected = 0; dead_lettered = [] })
          queue_closed
      else let a = admit to_upper env 0 events in
        let q' = record q { closed = env.closing } in
        elim env.lock [
          | some x ↦ not_enqueued q' file a (lock_failed x)
          | none ↦ elim (load_persisted_events c env.read file) [
            | err x ↦ not_enqueued q' file a (reload_failed x)
            | ok current ↦ enqueue_onto env q' file a current
          ]
        ]
