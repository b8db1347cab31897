-- ===== src/Siem/Queue.antt =====
-- The durable delivery queue of pkg/siem/queue.go: its state and its configuration.
pub mod Store
pub mod Deliver
pub mod Enqueue
pub mod Flush
pub mod Open
use basecheck_agent.Prelude.{
  ℕ, String, ℤ, pos, negsuc, is_neg, is_nonpos, Bool, false, List, [], ◌∷◌, if◌then◌else◌, str_eq,
}
use basecheck_agent.Siem.Event.{Event}

pub record QueueConfig : Type 0 where
  pub max_size : ℤ
  pub flush_interval_seconds : ℤ
  pub retry_max : ℤ
  pub retry_backoff_seconds : List ℤ
  pub persist_path : String

-- The defaults that `NewQueue` fills in; a negative number of retries means the default of 5.
unfoldable pub with_defaults : QueueConfig → QueueConfig
with_defaults cfg = record {
  max_size = if is_nonpos cfg.max_size then pos 1000 else cfg.max_size;
  flush_interval_seconds =
      if is_nonpos cfg.flush_interval_seconds then pos 10 else cfg.flush_interval_seconds;
  retry_max = if is_neg cfg.retry_max then pos 5 else cfg.retry_max;
  retry_backoff_seconds = elim cfg.retry_backoff_seconds [
    | [] ↦ pos 1 ∷ pos 5 ∷ pos 30 ∷ pos 120 ∷ pos 300 ∷ []
    | b ∷ bs ↦ b ∷ bs
  ];
  persist_path = if str_eq cfg.persist_path "" then ".cache/siem-queue.jsonl" else cfg.persist_path;
}

-- The queue of one process; what is on disk is a value of its own.
pub record Queue : Type 0 where
  pub config : QueueConfig
  pub pending : List Event
  pub closed : Bool
