-- ===== src/Siem/Queue/Open.antt =====
-- `NewQueue` of pkg/siem/queue.go: the queue that a process opens on the persist file, and what
-- becomes of a file that cannot be read. Its destination, which NewOutput has made, is not nil. The lock and the file system answer through an `OpenEnv`.
pub mod Laws
use basecheck_agent.Prelude.{Option, none, some, [], false, Result, ok, err}
use basecheck_agent.Siem.Fault.{Fault}
use basecheck_agent.Siem.Queue.{QueueConfig, Queue, with_defaults}
use basecheck_agent.Siem.Queue.Store.{Codec, File, StoreError, load_persisted_events}

-- `moved` is a file that is put aside, `stuck` one that cannot be.
pub data OpenError : Type 0 where
  lock_failed : Fault → OpenError
  moved : StoreError → OpenError
  stuck : StoreError → Fault → OpenError

-- The errors of the lock, of reading the file, and of renaming it.
pub record OpenEnv : Type 0 where
  pub lock : Option Fault
  pub read : Option Fault
  pub rename : Option Fault

-- The queue or the error, the persist file, and the file that is put aside, if one is.
pub record Opened : Type 0 where
  pub result : Result OpenError Queue
  pub file : File
  pub corrupt : File

-- What follows an error of loading.
unfoldable pub move_aside : Option Fault → StoreError → File → Opened
move_aside (some e) x file = record { result = err (stuck x e); file = file; corrupt = none }
move_aside none x file = record { result = err (moved x); file = none; corrupt = file }

unfoldable pub new_queue : Codec → OpenEnv → QueueConfig → File → Opened
new_queue c env cfg file = elim env.lock [
  | some e ↦ record { result = err (lock_failed e); file = file; corrupt = none }
  | none ↦ elim (load_persisted_events c env.read file) [
    | err x ↦ move_aside env.rename x file
    | ok events ↦ record {
      result = ok (record { config = with_defaults cfg; pending = events; closed = false });
      file = file;
      corrupt = none;
    }
  ]
]
