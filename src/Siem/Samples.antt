-- ===== src/Siem/Samples.antt =====
-- Values for the tests and the examples: events, a line format and environments without failures.
use Prim.Native.String
use Prim.Native.Char.{code}
use basecheck_agent.Prelude.{ℕ, String, pos, false, none, some, List, [], ◌∷◌, if◌then◌else◌, ◌==◌}
use basecheck_agent.Siem.Fault.{Fault, plain, retryable_error}
use basecheck_agent.Siem.Event.{
  Event, event_version, event_type_created, finding_status_open, severity_high,
}
use basecheck_agent.Siem.Queue.{Queue}
use basecheck_agent.Siem.Queue.Store.{Codec}
use basecheck_agent.Siem.Queue.Deliver.{Delivery}
use basecheck_agent.Siem.Queue.Enqueue.{EnqueueEnv}
use basecheck_agent.Siem.Queue.Flush.{FlushEnv}
use basecheck_agent.Siem.Dedup.Store.{DedupEnv}

abbrev pub codes : String → List ℕ
codes String.[] = []
codes (String.◌∷◌ letter rest) = let others = codes rest in code letter ∷ others

-- An event with a delivery ID and a fingerprint.
abbrev pub event_with : String → String → Event
event_with id fp = record {
  version = event_version;
  event_type = event_type_created;
  event_time = 7;
  organization_id = "";
  agent_id = "agent";
  system_id = "sys";
  system_name = "db";
  database_engine = "oracle";
  environment = "";
  finding_id = String.◌++◌ "find-" fp;
  fingerprint = fp;
  control_code = "C1";
  control_name = "control";
  finding_title = "title";
  severity = severity_high;
  finding_status = finding_status_open;
  first_seen = 7;
  last_seen = 7;
  remediated_at = none;
  regressed_at = none;
  occurrence_count = 1;
  source = "control_audit";
  basecheck_url = "";
  evidence = none;
  export = some (record {
    control_pack_name = "pack";
    control_pack_version = "1.0.0";
    control_pack_signature = "";
    agent_version = "1.0.0";
    mode = "siem_only";
    destination = "webhook";
    delivery_id = id;
  });
}

abbrev pub first_event : Event
first_event = event_with "id-1" "aa"

abbrev pub second_event : Event
second_event = event_with "id-2" "bb"

-- A line holds the fingerprint, which is enough to tell the two events apart.
abbrev pub codec : Codec
codec = record {
  encode = λ e. codes e.fingerprint;
  decode = λ line. elim line [
    | [] ↦ none
    | c ∷ _ ↦ if c == b'a' then some first_event else some second_event
  ];
}

abbrev pub transient : Fault
transient = retryable_error (plain "server error")

-- The first send fails for a passing reason, and the next one succeeds.
abbrev pub delivery : Delivery
delivery = record {
  done = λ _. none;
  send = elim [ ℕ.zero ↦ some transient | ℕ.suc n ↦ none ];
  done_waiting = λ _. none;
  dead_letter = none;
}

abbrev pub queue : Queue
queue = record {
  config = record {
    max_size = pos 10;
    flush_interval_seconds = pos 10;
    retry_max = pos 5;
    retry_backoff_seconds = pos 1 ∷ pos 5 ∷ [];
    persist_path = "q";
  };
  pending = [];
  closed = false;
}

abbrev pub enqueue_env : EnqueueEnv
enqueue_env = record {
  fresh = λ _. "uuid";
  lock = none;
  read = none;
  write = none;
  closing = false;
  dead_letter = none;
}

abbrev pub flush_env : FlushEnv
flush_env = record {
  flush_lock = none;
  lock = none;
  read = none;
  delivery = delivery;
  last_lock = none;
  last_read = none;
  write = none;
}

abbrev pub dedup_env : ℕ → DedupEnv
dedup_env now = record { now = now; lock = none; read = none; write = none }
