-- ===== src/Siem/Queue/Deliver.antt =====
-- Delivery with retries (`deliverWithRetry`, `sendToDeadLetter` of pkg/siem/queue.go). The
-- destination, the context and the dead-letter file answer through a `Delivery`, attempt by
-- attempt. `none` is a run-time panic, which an empty list of backoffs would cause.
pub mod Conserve
pub mod Laws
use basecheck_agent.Prelude.{
  ℕ, zero, suc, ◌+◌, ◌-◌, ℤ, Bool, not, ◌||◌, Option, none, some, List, [], ◌∷◌, ◌++◌, get_elem?,
  length, ltb, leb, if◌then◌else◌,
}
use basecheck_agent.Siem.Fault.{Fault, is_canceled, is_deadline_exceeded, is_retryable}
use basecheck_agent.Siem.Event.{Event}

pub record Delivery : Type 0 where
  -- `ctx.Err()` at the top of an attempt, if the context is done there
  pub done : ℕ → Option Fault
  -- the error of `dest.Send` in an attempt
  pub send : ℕ → Option Fault
  -- `ctx.Err()` if the context is done before the backoff behind an attempt is over
  pub done_waiting : ℕ → Option Fault
  -- the error of writing an event to the dead-letter file, if one is configured
  pub dead_letter : Option (Event → Option Fault)

pub data DeliveryError : Type 0 where
  stopped : Fault → DeliveryError
  max_retries_exceeded : Fault → DeliveryError
  max_retries_kept_pending : ℕ → Fault → DeliveryError

-- What `deliverWithRetry` returns, with the number of sends and the waits that it made.
pub record Outcome : Type 0 where
  pub delivered : List Event
  pub remaining : List Event
  pub abandoned : List Event
  pub error : Option DeliveryError
  pub sends : ℕ
  pub waits : List ℤ

-- Events that could not be written, and events that were.
unfoldable pub write_all : (Event → Option Fault) → List Event → List Event × List Event
write_all write [] = ([], [])
write_all write (e ∷ es) =
    let (pending, abandoned) = write_all write es in
    elim (write e) [ some _ ↦ (e ∷ pending, abandoned) | none ↦ (pending, e ∷ abandoned) ]

unfoldable pub send_to_dead_letter :
    Option (Event → Option Fault) → List Event → List Event × List Event
unfolding write_all
send_to_dead_letter none events = (events, [])
send_to_dead_letter (some write) events = write_all write events

-- The backoff behind an attempt; the last one of the sequence serves for all later attempts.
unfoldable pub backoff_for : List ℤ → ℕ → Option ℤ
backoff_for backoffs attempt =
    get_elem? backoffs (if leb (length backoffs) attempt then length backoffs - 1 else attempt)

module _ (env : Delivery) (backoffs : List ℤ) (events : List Event) where
  -- The context is done, or the send met its end: everything stays pending.
  abbrev pub kept_pending : Fault → ℕ → List ℤ → Outcome
  kept_pending e sends waits = record {
    delivered = [];
    remaining = events;
    abandoned = [];
    error = some (stopped e);
    sends = sends;
    waits = waits;
  }

  abbrev pub all_delivered : ℕ → List ℤ → Outcome
  all_delivered sends waits = record {
    delivered = events;
    remaining = [];
    abandoned = [];
    error = none;
    sends = sends;
    waits = waits;
  }

  -- A permanent failure.
  unfoldable pub rejected : Fault → ℕ → List ℤ → Outcome
  rejected e sends waits =
      let (pending, dead) = send_to_dead_letter env.dead_letter events in
      record {
        delivered = [];
        remaining = pending;
        abandoned = dead;
        error = some (stopped e);
        sends = sends;
        waits = waits;
      }

  -- The end of the loop, with the last error.
  unfoldable pub exhausted : Fault → ℕ → List ℤ → Outcome
  exhausted e sends waits =
      let (pending, dead) = send_to_dead_letter env.dead_letter events in
      if ltb 0 (length pending)
      then record {
        delivered = [];
        remaining = pending;
        abandoned = dead;
        error = some (max_retries_kept_pending (length pending) e);
        sends = sends;
        waits = waits;
      }
      else record {
        delivered = [];
        remaining = [];
        abandoned = dead;
        error = some (max_retries_exceeded e);
        sends = sends;
        waits = waits;
      }

  -- One attempt; `retry` is what follows a retryable error.
  unfoldable pub attempt_once : ℕ → List ℤ → (Fault → Option Outcome) → Option Outcome
  attempt_once attempt waits retry = elim (env.done attempt) [
    | some e ↦ some (kept_pending e attempt waits)
    | none ↦ elim (env.send attempt) [
      | none ↦ some (all_delivered (attempt + 1) waits)
      | some e ↦
          if is_canceled e || is_deadline_exceeded e
          then some (kept_pending e (attempt + 1) waits)
          else if not (is_retryable e)
          then some (rejected e (attempt + 1) waits)
          else retry e
    ]
  ]

  -- The attempts from one on; `left` more may follow it, so it is `RetryMax - attempt`.
  unfoldable pub attempts_from : ℕ → ℕ → List ℤ → Option Outcome
  attempts_from zero attempt waits =
      attempt_once attempt waits (λ e. some (exhausted e (attempt + 1) waits))
  attempts_from (suc left) attempt waits = attempt_once attempt waits λ e.
      elim (backoff_for backoffs attempt) [
        | none ↦ none
        | some b ↦ elim (env.done_waiting attempt) [
          | some c ↦ some (kept_pending c (attempt + 1) (waits ++ b ∷ []))
          | none ↦ attempts_from left (attempt + 1) (waits ++ b ∷ [])
        ]
      ]

-- No events, no attempt.
unfoldable pub deliver_with_retry : Delivery → ℕ → List ℤ → List Event → Option Outcome
deliver_with_retry env retry_max backoffs [] =
    some (record {
      delivered = [];
      remaining = [];
      abandoned = [];
      error = none;
      sends = 0;
      waits = [];
    })
deliver_with_retry env retry_max backoffs (e ∷ es) =
    attempts_from env backoffs (e ∷ es) retry_max 0 []
