-- ===== src/Siem/Queue/Deliver/Laws.antt =====
-- The contract of a delivery (`deliverWithRetry` of pkg/siem/queue.go): where the batch ends up,
-- how often it is sent, and when it is retried.
use basecheck_agent.Prelude.{
  ℕ, zero, suc, ◌+◌, ◌<◌, ◌≤◌, ℤ, ◌≡◌, ◌⊎◌, inl, inr, refl, ◌∙◌, true, false, Option, none, some,
  List, [], ◌∷◌, ◌++◌, Perm, length, ltb, arith, Bool-cases, append-nil,
}
use mathlib.Core.List.Perm
use basecheck_agent.Siem.Fault.{
  Fault, failed, webhook_send, is_canceled, is_deadline_exceeded, is_retryable, retryable_error,
  wrapped,
}
use basecheck_agent.Siem.Event.{Event}
use basecheck_agent.Siem.Queue.Deliver.{
  Delivery, Outcome, send_to_dead_letter, kept_pending, all_delivered, rejected, exhausted,
  attempt_once, attempts_from, deliver_with_retry,
}
use basecheck_agent.Siem.Queue.Deliver.Conserve.{
  send_to_dead_letter-perm, Returns, attempts_from-Returns, backoff_for-total,
}

-- What holds of every outcome of a delivery of `events` with at most `retries` retries.
pub record IsAccounted (env : Delivery) (retries : ℕ) (events : List Event) (o : Outcome)
    : Type 0 where
  -- no event is lost or made up
  pub partition : Perm (o.delivered ++ (o.remaining ++ o.abandoned)) events
  -- the whole batch is delivered, with no error, or none of it, with one
  pub all_or_nothing :
      ((o.error ≡ none) × ((o.delivered ≡ events) × ((o.remaining ≡ []) × (o.abandoned ≡ []))))
      ⊎ ((o.delivered ≡ []) × (o.error ≡ none → ⊥))
  -- what is delivered is what the last send took without an error
  pub confirmed : (o.delivered ≡ []) ⊎ ((n : ℕ) × (o.sends ≡ n + 1) × (env.send n ≡ none))
  -- without a dead-letter file nothing is abandoned
  pub no_silent_loss : env.dead_letter ≡ none → o.abandoned ≡ []
  pub few_sends : o.sends ≤ suc retries
  pub few_waits : length o.waits ≤ retries

module _ (env : Delivery) (backoffs : List ℤ) (events : List Event) (retries : ℕ) where
  kept_pending-IsAccounted :
      (e : Fault) (n : ℕ) (w : List ℤ)
      → n ≤ suc retries
      → length w ≤ retries
      → IsAccounted env retries events (kept_pending env backoffs events e n w)
  kept_pending-IsAccounted e n w p q = record {
    partition = rw append-nil (Perm.refl events);
    all_or_nothing = inr (refl, λ x. cc);
    confirmed = inl refl;
    no_silent_loss = λ _. refl;
    few_sends = p;
    few_waits = q;
  }

  all_delivered-IsAccounted :
      (attempt : ℕ) (w : List ℤ)
      → env.send attempt ≡ none
      → attempt + 1 ≤ suc retries
      → length w ≤ retries
      → IsAccounted env retries events (all_delivered env backoffs events (attempt + 1) w)
  all_delivered-IsAccounted attempt w sent p q = record {
    partition = rw (append-nil events) (Perm.refl events);
    all_or_nothing = inl (refl, (refl, (refl, refl)));
    confirmed = inr (attempt, refl, sent);
    no_silent_loss = λ _. refl;
    few_sends = p;
    few_waits = q;
  }

  nothing_abandoned :
      (dead : Option (Event → Option Fault))
      → dead ≡ none
      → (send_to_dead_letter dead events).1 ≡ []
  unfolding send_to_dead_letter
  nothing_abandoned none e = refl
  nothing_abandoned (some w) e = cc

  rejected-IsAccounted :
      (e : Fault) (n : ℕ) (w : List ℤ)
      → n ≤ suc retries
      → length w ≤ retries
      → is_retryable e ≡ false
      → IsAccounted env retries events (rejected env backoffs events e n w)
  unfolding rejected
  rejected-IsAccounted e n w p q _ = record {
    partition = send_to_dead_letter-perm env.dead_letter events;
    all_or_nothing = inr (refl, λ x. cc);
    confirmed = inl refl;
    no_silent_loss = nothing_abandoned env.dead_letter;
    few_sends = p;
    few_waits = q;
  }

  empty_of_length : (xs : List Event) → ltb 0 (length xs) ≡ false → xs ≡ []
  empty_of_length [] h = refl
  empty_of_length (x ∷ xs) h = ground arith

  exhausted-IsAccounted :
      (e : Fault) (w : List ℤ)
      → length w ≤ retries
      → IsAccounted env retries events (exhausted env backoffs events e (suc retries) w)
  unfolding exhausted
  exhausted-IsAccounted e w q =
      let (pending, dead) = send_to_dead_letter env.dead_letter events in
      elim (Bool-cases (ltb 0 (length (send_to_dead_letter env.dead_letter events).0))) [
        | inl more ↦ rw more (record {
          partition = send_to_dead_letter-perm env.dead_letter events;
          all_or_nothing = inr (refl, λ x. cc);
          confirmed = inl refl;
          no_silent_loss = nothing_abandoned env.dead_letter;
          few_sends = omega arith;
          few_waits = q;
        })
        | inr none_left ↦ rw none_left (record {
          partition =
              rw (empty_of_length (send_to_dead_letter env.dead_letter events).0 none_left) at
                (send_to_dead_letter-perm env.dead_letter events);
          all_or_nothing = inr (refl, λ x. cc);
          confirmed = inl refl;
          no_silent_loss = nothing_abandoned env.dead_letter;
          few_sends = omega arith;
          few_waits = q;
        })
      ]

-- With a backoff configured, a delivery returns, whatever the destination, the context and the
-- dead-letter file do: its three lists share out the batch, the batch is delivered whole with no
-- error or not at all with one, it is delivered only if the last send had no error, nothing is
-- abandoned without a dead-letter file, and there are at most `retries + 1` sends and `retries` waits.
pub deliver_with_retry-IsAccounted :
    (env : Delivery) (retries : ℕ) (backoffs : List ℤ) (events : List Event)
    → 0 < length backoffs
    → Returns (IsAccounted env retries events) (deliver_with_retry env retries backoffs events)
unfolding deliver_with_retry
deliver_with_retry-IsAccounted env retries backoffs [] h = record {
  partition = Perm.refl [];
  all_or_nothing = inl (refl, (refl, (refl, refl)));
  confirmed = inl refl;
  no_silent_loss = λ _. refl;
  few_sends = omega arith;
  few_waits = omega arith;
}
deliver_with_retry-IsAccounted env retries backoffs (e ∷ es) h =
    attempts_from-Returns env backoffs (e ∷ es) retries (IsAccounted env retries (e ∷ es))
      (kept_pending-IsAccounted env backoffs (e ∷ es) retries)
      (all_delivered-IsAccounted env backoffs (e ∷ es) retries)
      (rejected-IsAccounted env backoffs (e ∷ es) retries)
      (exhausted-IsAccounted env backoffs (e ∷ es) retries) h retries 0 [] (omega arith)
      (omega arith)

-- A failure that the queue retries.
abbrev pub IsTransient : Fault → Type 0
IsTransient e = (is_canceled e ≡ false) × (is_deadline_exceeded e ≡ false) × (is_retryable e ≡ true)

-- `n` attempts from `attempt` on fail for a passing reason, and the context is never done.
abbrev pub FailsFrom : Delivery → ℕ → ℕ → Type 0
FailsFrom env zero attempt = env.done attempt ≡ none
FailsFrom env (suc n) attempt =
    (env.done attempt ≡ none)
    × ((e : Fault) × (env.send attempt ≡ some e) × IsTransient e)
    × (env.done_waiting attempt ≡ none)
    × FailsFrom env n (attempt + 1)

module _ (env : Delivery) (backoffs : List ℤ) (events : List Event) (h : 0 < length backoffs) where
  attempt_once-sent :
      (attempt : ℕ) (waits : List ℤ) (retry : Fault → Option Outcome)
      → env.done attempt ≡ none
      → env.send attempt ≡ none
      → attempt_once env backoffs events attempt waits retry
        ≡ some (all_delivered env backoffs events (attempt + 1) waits)
  unfolding attempt_once
  attempt_once-sent attempt waits retry d s = rw (d, s, attempt_once)

  attempt_once-retried :
      (attempt : ℕ) (waits : List ℤ) (retry : Fault → Option Outcome) (e : Fault)
      → env.done attempt ≡ none
      → env.send attempt ≡ some e
      → IsTransient e
      → attempt_once env backoffs events attempt waits retry ≡ retry e
  unfolding attempt_once
  attempt_once-retried attempt waits retry e d s (c, x, r) = rw (d, s, c, x, r, attempt_once)

  retries_until_success :
      (n left attempt stop : ℕ) (waits : List ℤ)
      → n ≤ left
      → attempt + n ≡ stop
      → FailsFrom env n attempt
      → env.send stop ≡ none
      → (w : List ℤ) × (attempts_from env backoffs events left attempt waits
          ≡ some (all_delivered env backoffs events (stop + 1) w))
  unfolding attempts_from
  retries_until_success zero zero attempt stop waits le eq f s =
      let at : attempt ≡ stop = omega arith in
      (waits, rw (← at) (attempt_once-sent attempt waits _ f (rw (← at) at s)))
  retries_until_success zero (suc left) attempt stop waits le eq f s =
      let at : attempt ≡ stop = omega arith in
      (waits, rw (← at) (attempt_once-sent attempt waits _ f (rw (← at) at s)))
  retries_until_success (suc n) zero attempt stop waits le eq f s = absurd (omega arith)
  retries_until_success (suc n) (suc left) attempt stop waits le eq (d, (e, se, t), dw, f) s =
      let (b, found) = backoff_for-total backoffs attempt h in
      let (w, rest) =
        retries_until_success n left (attempt + 1) stop (waits ++ b ∷ []) (omega arith)
          (omega arith) f s in
      (w, attempt_once-retried attempt waits _ e d se t ∙ rw (found, dw) rest)

-- A batch whose first `n` sends fail for a passing reason and whose next one succeeds is delivered
-- whole, without an error and after exactly `n + 1` sends, if `n` is at most the number of retries, a
-- backoff is configured, and the context is not done before any of these sends or while it waits.
pub deliver_with_retry-recovers :
    (env : Delivery) (retries : ℕ) (backoffs : List ℤ) (e : Event) (es : List Event) (n : ℕ)
    → 0 < length backoffs
    → n ≤ retries
    → FailsFrom env n 0
    → env.send n ≡ none
    → (o : Outcome) × (deliver_with_retry env retries backoffs (e ∷ es) ≡ some o)
      × (o.delivered ≡ e ∷ es)
      × (o.sends ≡ n + 1)
      × (o.error ≡ none)
unfolding deliver_with_retry
deliver_with_retry-recovers env retries backoffs e es n h le f s =
    let (w, found) =
      retries_until_success env backoffs (e ∷ es) h n retries 0 n [] le (omega arith) f s in
    (all_delivered env backoffs (e ∷ es) (n + 1) w, found, refl, refl, refl)

first_attempt :
    (env : Delivery) (backoffs : List ℤ) (events : List Event) (left : ℕ) (f : Fault)
    → env.done 0 ≡ none
    → env.send 0 ≡ some f
    → is_deadline_exceeded f ≡ true
    → attempts_from env backoffs events left 0 [] ≡ some (kept_pending env backoffs events f 1 [])
unfolding attempts_from attempt_once
first_attempt env backoffs events zero f d s x = elim (Bool-cases (is_canceled f)) [
  | inl c ↦ rw (d, s, c, attempt_once)
  | inr c ↦ rw (d, s, c, x, attempt_once)
]
first_attempt env backoffs events (suc left) f d s x = elim (Bool-cases (is_canceled f)) [
  | inl c ↦ rw (d, s, c, attempt_once)
  | inr c ↦ rw (d, s, c, x, attempt_once)
]

webhook_timeout :
    (size : ℕ) (f : Fault)
    → 0 < size
    → is_canceled f ≡ false
    → webhook_send size none none (failed f)
      ≡ some (retryable_error (wrapped "webhook request failed" f))
unfolding webhook_send
webhook_timeout size f h c = ground arith

-- A webhook request that fails with a deadline error is reported as retryable, and yet the queue
-- never retries it: after the first send the batch stays pending, however many retries are set.
pub webhook_timeout-not_retried :
    (env : Delivery) (retries : ℕ) (backoffs : List ℤ) (e : Event) (es : List Event) (f : Fault)
    → env.done 0 ≡ none
    → env.send 0 ≡ webhook_send (length (e ∷ es)) none none (failed f)
    → is_canceled f ≡ false
    → is_deadline_exceeded f ≡ true
    → (g : Fault) × (webhook_send (length (e ∷ es)) none none (failed f) ≡ some g)
      × (is_retryable g ≡ true)
      × (deliver_with_retry env retries backoffs (e ∷ es)
          ≡ some (kept_pending env backoffs (e ∷ es) g 1 []))
unfolding deliver_with_retry
webhook_timeout-not_retried env retries backoffs e es f d s c x =
    let sent = webhook_timeout (length (e ∷ es)) f (omega arith) c in
    (
      retryable_error (wrapped "webhook request failed" f),
      sent,
      refl,
      first_attempt env backoffs (e ∷ es) retries _ d (s ∙ sent) x,
    )
