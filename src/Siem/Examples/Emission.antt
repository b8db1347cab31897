-- ===== src/Siem/Examples/Emission.antt =====
-- Examples for the conversion of findings and for the coordinator.
use basecheck_agent.Prelude.{◌≡◌, refl, none, some, [], ◌∷◌}
use basecheck_agent.Siem.Fault.{plain}
use basecheck_agent.Siem.Context.{FindingContext}
use basecheck_agent.Siem.Converter.{str, field, Finding, ProcedureResult, ControlResult}
use basecheck_agent.Siem.Queue.Deliver.{
  stopped, deliver_with_retry, attempts_from, attempt_once, rejected, send_to_dead_letter,
}
use basecheck_agent.Siem.Queue.Store.{load_persisted_events, scan_events, persist}
use basecheck_agent.Siem.Queue.Flush.{
  Flushed, flush, not_delivered, flush_batch, finish, events_not_in_delivery_ids, delivery_id_of,
  is_excluded,
}
use basecheck_agent.Siem.Dedup.{Deduplicator}
use basecheck_agent.Siem.Dedup.Store.{filter}
use basecheck_agent.Siem.Dedup.Laws.{IsWellFormed}
use basecheck_agent.Siem.Output.{
  Library, Output, EmitEnv, OutputFlushEnv, OutputFlushed, emit_events, flush_output,
}
use basecheck_agent.Siem.Output.Laws.{
  IsHandled, IsFreeIn, emit_events-IsHandled, flush_output-IsFreeIn,
}
use basecheck_agent.Siem.Samples.{
  codes, codec, first_event, queue, enqueue_env, flush_env, dedup_env, delivery,
}

abbrev context : FindingContext
context = record {
  agent_id = "agent";
  agent_version = "1";
  system_id = "sys";
  system_name = "db";
  database_engine = "oracle";
  environment = "";
  control_pack_name = "pack";
  control_pack_version = "1";
  mode = "siem_only";
  destination = "webhook";
}

abbrev finding : Finding
finding = record {
  severity = "high";
  title = "t";
  description = "d";
  evidence = ("OBJECT", field (str "tab")) ∷ [];
  remediation = "r";
}

abbrev procedure : ProcedureResult
procedure = record { status = "FAIL"; findings = finding ∷ [] }

abbrev control : ControlResult
control = record {
  control_code = "C";
  title = "control";
  status = "FAIL";
  procedures = procedure ∷ [];
  control_pack_name = "";
  control_pack_version = "";
}

abbrev library : Library
library = record {
  to_lower = λ s. s;
  to_upper = λ s. s;
  normalize = λ s. s;
  bytes = codes;
  digest = λ b. "fp";
  codec = codec;
}

abbrev fresh : Deduplicator
fresh = record { cache = []; window_hours = 24 }

abbrev output : Output
output = record { dedup = some fresh; dedup_file = []; queue = queue; queue_file = none }

fresh-IsWellFormed : IsWellFormed []
fresh-IsWellFormed = record { keyed = tt; distinct = tt }

-- The queue's file cannot be written.
abbrev full_disk : EmitEnv
full_disk = record {
  now = 10;
  detecting = 10;
  filtering = dedup_env 10;
  enqueueing = record enqueue_env { write = some (plain "no space left on device") };
  releasing = dedup_env 10;
}

emit_events-IsHandled_example :
    IsHandled 20 100 output
      (filter (dedup_env 10) fresh [] (first_event ∷ [])).result
      (emit_events library full_disk output (first_event ∷ []))
emit_events-IsHandled_example =
    emit_events-IsHandled library full_disk output fresh first_event [] 20 100 refl
      fresh-IsWellFormed (refl, refl, refl)

-- The destination rejects the batch, and the dead-letter file takes it.
abbrev rejecting : OutputFlushEnv
rejecting = record {
  flushing = record flush_env {
    delivery = record delivery {
      send = λ _. some (plain "client error");
      dead_letter = some (λ _. none);
    };
  };
  recording = dedup_env 10;
  releasing = dedup_env 10;
}

abbrev stored : Output
stored = record output { queue_file = some (codes "aa" ∷ []) }

abbrev flushed : Flushed
flushed = record {
  queue = queue;
  file = some [];
  result = record {
    delivered_count = 0;
    delivered = [];
    abandoned = first_event ∷ [];
    error = some (not_delivered (stopped (plain "client error")));
  };
}

flush_output-IsFreeIn_example :
    (r : OutputFlushed) × (flush_output codec rejecting stored (λ file. file) ≡ some r)
    × IsFreeIn 20 100 (first_event ∷ []) r.output
unfolding flush load_persisted_events scan_events flush_batch deliver_with_retry attempts_from
    attempt_once finish rejected persist send_to_dead_letter events_not_in_delivery_ids
    delivery_id_of is_excluded
flush_output-IsFreeIn_example =
    flush_output-IsFreeIn codec rejecting stored (λ file. file) flushed fresh first_event [] 20 100
      refl refl refl fresh-IsWellFormed (refl, refl, refl)
