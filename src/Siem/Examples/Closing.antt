-- ===== src/Siem/Examples/Closing.antt =====
-- The theorems about the start and the end of the SIEM output applied to concrete runs.
use basecheck_agent.Prelude.{◌≡◌, ◌↔◌, refl, pos, true, false, none, some, [], ◌∷◌, arith}
use basecheck_agent.Siem.Fault.{plain}
use basecheck_agent.Siem.Queue.Flush.{flush, lock_failed, flush_lock_failed}
use basecheck_agent.Siem.Dedup.{Deduplicator, reserve, should_emit}
use basecheck_agent.Prelude.Dict.{lookup}
use basecheck_agent.Siem.Dedup.Store.{
  filter, new_deduplicator, opened, reload_and_merge, merge_memory, from_disk,
}
use basecheck_agent.Siem.Dedup.Repeat.{always_emitted}
use basecheck_agent.Siem.Dedup.Restart.{reopened, new_deduplicator-filter}
use basecheck_agent.Siem.Output.{
  Output, OutputFlushed, flush_output, settle, record_result, release_abandoned,
}
use basecheck_agent.Siem.Output.Open.{OutputConfig, StartEnv, new_output}
use basecheck_agent.Siem.Output.Open.Laws.{Begins, new_output-IsBegun}
use basecheck_agent.Siem.Queue.Open.Laws.{calm}
use basecheck_agent.Text.{text}
use basecheck_agent.Siem.Queue.Store.{load_persisted_events, scan_events}
use basecheck_agent.Siem.Queue.Flush.{delivery_id_of}
use basecheck_agent.Siem.Output.Close.{CloseEnv, Closed, close_output}
use basecheck_agent.Siem.Output.Close.Laws.{ClosesWell, close_output_iff}
use basecheck_agent.Siem.Output.Ticker.{
  World, started, Run, begin, then_step, tick, begin_flush, end_flush, close_stop, stopping,
  flushing,
}
use basecheck_agent.Siem.Output.Ticker.Laws.{IsOrderly, has_failure, late, run-IsOrderly}
use basecheck_agent.Siem.Output.Ticker.Progress.{EndsFrom, close_ends}
use basecheck_agent.Siem.Samples.{codes, codec, first_event, queue, flush_env, dedup_env}

-- A first periodic flush fails, and a second one is under way when Close is called.
abbrev closing : World
closing = record {
  flusher = flushing;
  caller = stopping;
  has_tick = false;
  is_ticking = true;
  is_stopped = true;
  periodic_flush_err = true;
}

failing : Run started closing
failing =
    then_step
      (then_step
        (then_step
          (then_step (then_step (then_step begin (tick refl)) (begin_flush refl refl))
            (end_flush (some (lock_failed (plain "held"))) refl))
          (tick refl))
        (close_stop refl))
      (begin_flush refl refl)

run-IsOrderly_example : IsOrderly closing (has_failure failing) (late failing)
run-IsOrderly_example = run-IsOrderly failing

close_ends_example : EndsFrom closing
close_ends_example = close_ends failing (λ e. cc)

-- The lock of the final flush is held by another process.
abbrev locked : CloseEnv
locked = record {
  flushing = record {
    flushing = record flush_env { flush_lock = some (plain "held") };
    recording = dedup_env 10;
    releasing = dedup_env 10;
  };
  persisting = dedup_env 10;
  dead_letter = none;
  destination = none;
}

abbrev undelivered : Output
undelivered = record {
  dedup = none;
  dedup_file = [];
  queue = queue;
  queue_file = some (codes "aa" ∷ []);
}

abbrev unflushed : OutputFlushed
unflushed = record {
  output = undelivered;
  delivered_count = 0;
  error = some (flush_lock_failed (plain "held"));
}

close_output_iff_example :
    (r : Closed) × (close_output codec locked undelivered (λ file. file) ≡ some r)
    × (r.output.queue_file ≡ some (codes "aa" ∷ []))
    × ((r.error ≡ none) ↔ ClosesWell locked undelivered)
unfolding flush_output flush settle record_result release_abandoned
close_output_iff_example = close_output_iff codec locked undelivered (λ file. file) unflushed refl

abbrev fresh : Deduplicator
fresh = record { cache = []; window_hours = 24 }

new_deduplicator-filter_example :
    (let s = filter (dedup_env 10) fresh [] (first_event ∷ []) in
      let d = reopened (dedup_env 15) (pos 24) s.file in
      ((new_deduplicator (dedup_env 15) none (pos 24) s.file).0 ≡ opened d)
      × ((filter (dedup_env 20) d s.file s.result).result ≡ always_emitted s.result))
unfolding filter lookup reserve should_emit reload_and_merge merge_memory from_disk
new_deduplicator-filter_example =
    new_deduplicator-filter (dedup_env 10) (dedup_env 15) (dedup_env 20) none (pos 24) fresh []
      (first_event ∷ []) (refl, refl, refl) (refl, refl, refl) (refl, refl, refl)
      (record { keyed = tt; distinct = tt }) (tt, tt) (omega arith)

-- The deduplicator's file cannot be read, and the queue, which is given up, is flushed.
abbrev failing_start : StartEnv
failing_start = record {
  dead_letter = none;
  queue = calm;
  dedup = record (dedup_env 10) { read = some (plain "bad JSON") };
  rename = none;
  closing = flush_env;
}

abbrev settings : OutputConfig
settings = record {
  destination = record {
    destination = text "syslog";
    webhook = record {
      url = [];
      headers = [];
      timeout_seconds = pos 30;
      agent_version = [];
      allow_insecure = false;
    };
    syslog = record {
      host = text "h";
      port = pos 0;
      protocol = [];
      facility = [];
      app_name = [];
      timeout_seconds = pos 0;
    };
  };
  queue = queue.config;
  has_dead_letter = false;
  deduplication_disabled = false;
  deduplication_window_hours = pos 24;
}

new_output-IsBegun_example :
    Begins codec failing_start settings
      (first_event ∷ [])
      (some (codes "aa" ∷ []))
      (new_output codec failing_start settings (λ _. none) [] (some (codes "aa" ∷ [])) [])
unfolding load_persisted_events scan_events delivery_id_of
new_output-IsBegun_example =
    new_output-IsBegun codec failing_start settings (λ _. none) [] (first_event ∷ [])
      (some (codes "aa" ∷ [])) [] refl (("id-1", refl), tt)
