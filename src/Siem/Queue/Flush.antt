-- ===== src/Siem/Queue/Flush.antt =====
-- `Queue.Flush` and `Queue.Close` of pkg/siem/queue.go. A flush takes a snapshot of the persist
-- file under its lock, delivers it with the lock free, and writes what remains under the lock
-- again. `meanwhile` is what other processes do to the file in between. The locks and the file
-- system answer through a `FlushEnv`; `none` is a run-time panic of the delivery.
pub mod Arrivals
pub mod Laws
use basecheck_agent.Prelude.{
  ℕ, String, Bool, true, false, not, ◌||◌, Option, none, some, List, [], ◌∷◌, ◌++◌, Result, ok, err,
  length, to_ℕ, if◌then◌else◌, str_eq,
}
use basecheck_agent.Siem.Fault.{Fault}
use basecheck_agent.Siem.Event.{Event, EventExport}
use basecheck_agent.Siem.Queue.{Queue}
use basecheck_agent.Siem.Queue.Store.{Codec, File, StoreError, load_persisted_events, persist}
use basecheck_agent.Siem.Queue.Deliver.{Delivery, DeliveryError, Outcome, deliver_with_retry}

pub data FlushError : Type 0 where
  flush_lock_failed : Fault → FlushError
  lock_failed : Fault → FlushError
  reload_failed : StoreError → FlushError
  last_lock_failed : Fault → FlushError
  last_reload_failed : StoreError → FlushError
  persist_failed : Fault → FlushError
  not_delivered : DeliveryError → FlushError

pub record FlushEnv : Type 0 where
  -- the errors of the flush lock, of the persist lock, and of reading the file for the snapshot
  pub flush_lock : Option Fault
  pub lock : Option Fault
  pub read : Option Fault
  pub delivery : Delivery
  -- the errors of the persist lock, of reading and of writing the file at the end
  pub last_lock : Option Fault
  pub last_read : Option Fault
  pub write : Option Fault

pub record FlushResult : Type 0 where
  pub delivered_count : ℕ
  pub delivered : List Event
  pub abandoned : List Event
  pub error : Option FlushError

-- The queue, the file and the result afterwards.
pub record Flushed : Type 0 where
  pub queue : Queue
  pub file : File
  pub result : FlushResult

unfoldable pub delivery_id_of : Event → Option String
delivery_id_of e = elim e.export [ none ↦ none | some x ↦ some x.delivery_id ]

-- Whether an ID is the delivery ID of one of the events.
unfoldable pub is_excluded : String → List Event → Bool
is_excluded id [] = false
is_excluded id (e ∷ es) =
    (elim (delivery_id_of e) [ none ↦ false | some i ↦ str_eq i id ]) || is_excluded id es

-- The candidates whose delivery ID is none of the excluded events'; one without an ID is kept.
unfoldable pub events_not_in_delivery_ids : List Event → List Event → List Event
events_not_in_delivery_ids [] excluded = []
events_not_in_delivery_ids (e ∷ es) excluded =
    let rest = events_not_in_delivery_ids es excluded in
    elim (delivery_id_of e) [
      | none ↦ e ∷ rest
      | some id ↦ if is_excluded id excluded then rest else e ∷ rest
    ]

abbrev pub flush_result : List Event → List Event → Option FlushError → FlushResult
flush_result delivered abandoned error = record {
  delivered_count = length delivered;
  delivered = delivered;
  abandoned = abandoned;
  error = error;
}

abbrev delivery_failure : Option DeliveryError → Option FlushError
delivery_failure none = none
delivery_failure (some e) = some (not_delivered e)

module _ (c : Codec) where
  -- The final write: what remains of the batch, and what has arrived since the snapshot.
  unfoldable pub finish : FlushEnv → Queue → List Event → Outcome → File → Flushed
  finish env q batch o file = elim env.last_lock [
    | some e ↦ record {
      queue = q;
      file = file;
      result = flush_result o.delivered o.abandoned (some (last_lock_failed e));
    }
    | none ↦ elim (load_persisted_events c env.last_read file) [
      | err x ↦ record {
        queue = q;
        file = file;
        result = flush_result o.delivered o.abandoned (some (last_reload_failed x));
      }
      | ok on_disk ↦
          let pending = o.remaining ++ events_not_in_delivery_ids on_disk batch in
          let (file', failed) = persist c env.write pending file in
          record {
            queue = record q { pending = pending };
            file = file';
            result = elim failed [
              | some e ↦ flush_result o.delivered o.abandoned (some (persist_failed e))
              | none ↦ flush_result o.delivered o.abandoned (delivery_failure o.error)
            ];
          }
    ]
  ]

  -- An error before anything is delivered.
  abbrev pub not_flushed : Queue → File → FlushError → Flushed
  not_flushed q file x = record { queue = q; file = file; result = flush_result [] [] (some x) }

  -- With the snapshot in hand.
  unfoldable pub flush_batch : FlushEnv → Queue → List Event → File → (File → File) → Option Flushed
  flush_batch env q [] file meanwhile = some (record {
    queue = record q { pending = [] };
    file = meanwhile file;
    result = flush_result [] [] none;
  })
  flush_batch env q (e ∷ es) file meanwhile =
      elim (deliver_with_retry env.delivery (to_ℕ q.config.retry_max) q.config.retry_backoff_seconds
        (e ∷ es)) [
          | none ↦ none
          | some o ↦ some (finish env (record q { pending = e ∷ es }) (e ∷ es) o (meanwhile file))
        ]

  unfoldable pub flush : FlushEnv → Queue → File → (File → File) → Option Flushed
  flush env q file meanwhile = elim env.flush_lock [
    | some e ↦ some (not_flushed q (meanwhile file) (flush_lock_failed e))
    | none ↦ elim env.lock [
      | some e ↦ some (not_flushed q (meanwhile file) (lock_failed e))
      | none ↦ elim (load_persisted_events c env.read file) [
        | err x ↦ some (not_flushed q (meanwhile file) (reload_failed x))
        | ok batch ↦ flush_batch env q batch file meanwhile
      ]
    ]
  ]

  -- The second close does nothing.
  unfoldable pub close : FlushEnv → Queue → File → (File → File) → Option Flushed
  close env q file meanwhile =
      if q.closed
      then some (record { queue = q; file = file; result = flush_result [] [] none })
      else flush env (record q { closed = true }) file meanwhile
