-- ===== src/Siem/Fault.antt =====
-- Go error values as the delivery code takes them apart (pkg/siem/destination.go), and the
-- verdict of the webhook destination on a response (pkg/siem/webhook.go).
use basecheck_agent.Prelude.{
  ℕ, String, Bool, true, false, ◌&&◌, Option, none, some, if◌then◌else◌, leb, ltb, ◌==◌,
}

-- `errors.New`, `fmt.Errorf` with `%w`, the two errors of package context, and RetryableError.
pub data Fault : Type 0 where
  canceled : Fault
  deadline_exceeded : Fault
  plain : String → Fault
  wrapped : String → Fault → Fault
  retryable_error : Fault → Fault

-- `errors.Is(err, context.Canceled)`
abbrev pub is_canceled : Fault → Bool
is_canceled canceled = true
is_canceled deadline_exceeded = false
is_canceled (plain s) = false
is_canceled (wrapped s e) = is_canceled e
is_canceled (retryable_error e) = is_canceled e

-- `errors.Is(err, context.DeadlineExceeded)`
abbrev pub is_deadline_exceeded : Fault → Bool
is_deadline_exceeded canceled = false
is_deadline_exceeded deadline_exceeded = true
is_deadline_exceeded (plain s) = false
is_deadline_exceeded (wrapped s e) = is_deadline_exceeded e
is_deadline_exceeded (retryable_error e) = is_deadline_exceeded e

-- `errors.As(err, &retryable)` finds a RetryableError anywhere along the chain.
abbrev pub is_retryable : Fault → Bool
is_retryable canceled = false
is_retryable deadline_exceeded = false
is_retryable (plain s) = false
is_retryable (wrapped s e) = is_retryable e
is_retryable (retryable_error e) = true

-- What a status code means for delivery; `none` is success.
unfoldable pub classify_response : ℕ → Option Fault
classify_response status_code =
    if leb 200 status_code && ltb status_code 300
    then none
    else if status_code == 429
    then some (retryable_error (plain "rate limited (429)"))
    else if leb 500 status_code
    then some (retryable_error (plain "server error"))
    else if leb 400 status_code
    then some (plain "client error")
    else some (plain "unexpected status code")

-- What `client.Do` gave: an error, or a response with its status code.
pub data Response : Type 0 where
  failed : Fault → Response
  status : ℕ → Response

-- `Send` of the webhook destination: an empty batch is not sent at all. `marshal` and `request`
-- are the errors of encoding the batch and of building the request, if there were any.
unfoldable pub webhook_send : ℕ → Option Fault → Option Fault → Response → Option Fault
unfolding classify_response
webhook_send batch_size marshal request response = if batch_size == 0 then none else elim marshal [
  | some e ↦ some (wrapped "marshal events" e)
  | none ↦ elim request [
    | some e ↦ some (wrapped "create request" e)
    | none ↦ elim response [
      | failed e ↦
          if is_canceled e
          then some (wrapped "webhook request canceled" e)
          else some (retryable_error (wrapped "webhook request failed" e))
      | status code ↦ classify_response code
    ]
  ]
]
