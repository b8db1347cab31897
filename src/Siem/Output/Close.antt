-- ===== src/Siem/Output/Close.antt =====
-- `Output.Close` of pkg/siem/output.go behind the end of the periodic flush: the final flush, and the
-- ends of the deduplicator, the dead-letter file and the destination.
pub mod Laws
use basecheck_agent.Prelude.{Option, none, some}
use basecheck_agent.Siem.Fault.{Fault}
use basecheck_agent.Siem.Queue.Store.{Codec, File}
use basecheck_agent.Siem.Dedup.Store.{DedupEnv, close}
use basecheck_agent.Siem.Output.{Output, OutputFlushEnv, with_step, flush_output}

pub data CloseError : Type 0 where
  dedup_failed : Fault → CloseError
  dead_letter_failed : Fault → CloseError
  destination_failed : Fault → CloseError

-- The errors of closing the dead-letter file, if there is one, and the destination.
pub record CloseEnv : Type 0 where
  pub flushing : OutputFlushEnv
  pub persisting : DedupEnv
  pub dead_letter : Option Fault
  pub destination : Option Fault

pub record Closed : Type 0 where
  pub output : Output
  pub error : Option CloseError

-- The first of the errors.
unfoldable pub first_error : Option Fault → Option Fault → Option Fault → Option CloseError
first_error (some e) dead_letter destination = some (dedup_failed e)
first_error none (some e) destination = some (dead_letter_failed e)
first_error none none (some e) = some (destination_failed e)
first_error none none none = none

-- The end of the deduplicator, if there is one.
unfoldable pub close_dedup : DedupEnv → Output → Output × Option Fault
close_dedup env o = elim o.dedup [
  | none ↦ (o, none)
  | some d ↦ let s = close env d o.dedup_file in (with_step o s, s.result)
]

-- What follows the final flush, whose error is only logged.
unfoldable pub close_components : CloseEnv → Output → Closed
close_components env o =
    let (after, dedup) = close_dedup env.persisting o in
    record { output = after; error = first_error dedup env.dead_letter env.destination }

-- `none` is a run-time panic of the delivery.
unfoldable pub close_output : Codec → CloseEnv → Output → (File → File) → Option Closed
close_output c env o meanwhile = elim (flush_output c env.flushing o meanwhile) [
  | none ↦ none
  | some f ↦ some (close_components env f.output)
]
