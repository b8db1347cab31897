-- ===== src/Siem/Queue/Deliver/Conserve.antt =====
-- Where each event of a batch ends up (`deliverWithRetry` of pkg/siem/queue.go).
use mathlib.Core.List.{perm_middle}
use mathlib.Core.List.Perm
use basecheck_agent.Prelude.{
  ℕ, zero, suc, ◌+◌, ◌<◌, ◌≤◌, ℤ, ◌≡◌, inl, inr, refl, false, ◌||◌, Option, none, some, List, [],
  ◌∷◌, ◌++◌, Perm, get_elem?, length, arith, Bool-cases, Option-cases, append-nil, length-append,
}
use basecheck_agent.Siem.Fault.{Fault, is_canceled, is_deadline_exceeded, is_retryable}
use basecheck_agent.Siem.Event.{Event}
use basecheck_agent.Siem.Queue.Deliver.{
  Delivery, Outcome, write_all, send_to_dead_letter, backoff_for, kept_pending, all_delivered,
  rejected, exhausted, attempt_once, attempts_from,
}

-- Dead-lettering splits the batch: an event is kept exactly if its write fails.
pub write_all-perm :
    (write : Event → Option Fault) (es : List Event)
    → Perm ((write_all write es).0 ++ (write_all write es).1) es
unfolding write_all
write_all-perm write [] = Perm.refl []
write_all-perm write (e ∷ es) = elim (Option-cases (write e)) [
  | inl written ↦
      rw (written, write_all)
        (Perm.trans (perm_middle (write_all write es).0 (write_all write es).1)
          (Perm.cons e (write_all-perm write es)))
  | inr (f, failed) ↦ rw (failed, write_all) (Perm.cons e (write_all-perm write es))
]

pub send_to_dead_letter-perm :
    (dead : Option (Event → Option Fault)) (es : List Event)
    → Perm ((send_to_dead_letter dead es).0 ++ (send_to_dead_letter dead es).1) es
unfolding send_to_dead_letter
send_to_dead_letter-perm none es = rw append-nil (Perm.refl es)
send_to_dead_letter-perm (some write) es = write_all-perm write es

-- The run did not panic, and its outcome has the property.
abbrev pub Returns : (Outcome → Type 0) → Option Outcome → Type 0
Returns P none = ⊥
Returns P (some o) = P o

get_elem?-total : (xs : List ℤ) (i : ℕ) → i < length xs → (b : ℤ) × (get_elem? xs i ≡ some b)
get_elem?-total [] i h = elim h [ ]
get_elem?-total (x ∷ xs) zero h = (x, refl)
get_elem?-total (x ∷ xs) (suc i) h = get_elem?-total xs i (omega arith)

pub backoff_for-total :
    (xs : List ℤ) (attempt : ℕ) → 0 < length xs → (b : ℤ) × (backoff_for xs attempt ≡ some b)
unfolding backoff_for
backoff_for-total xs attempt h = get_elem?-total xs _ (ground arith)

-- A property that holds at each of the four ways to end, after `n` sends and the waits `w`, holds
-- of the outcome, where there are at most `retries + 1` sends and `retries` waits.
module _ (env : Delivery) (backoffs : List ℤ) (events : List Event) (retries : ℕ)
    (P : Outcome → Type 0)
    (pending : (e : Fault) (n : ℕ) (w : List ℤ)
      → n ≤ suc retries
      → length w ≤ retries
      → P (kept_pending env backoffs events e n w))
    (done : (attempt : ℕ) (w : List ℤ)
      → env.send attempt ≡ none
      → attempt + 1 ≤ suc retries
      → length w ≤ retries
      → P (all_delivered env backoffs events (attempt + 1) w))
    (refused : (e : Fault) (n : ℕ) (w : List ℤ)
      → n ≤ suc retries
      → length w ≤ retries
      → is_retryable e ≡ false
      → P (rejected env backoffs events e n w))
    (ended : (e : Fault) (w : List ℤ)
      → length w ≤ retries
      → P (exhausted env backoffs events e (suc retries) w)) where
  attempt_once-Returns :
      (attempt : ℕ) (waits : List ℤ) (retry : Fault → Option Outcome)
      → attempt ≤ retries
      → length waits ≤ attempt
      → ((e : Fault) → Returns P (retry e))
      → Returns P (attempt_once env backoffs events attempt waits retry)
  unfolding attempt_once
  attempt_once-Returns attempt waits retry le lw ih = elim (Option-cases (env.done attempt)) [
    | inr (e, d) ↦ rw (d, attempt_once) (pending e attempt waits (omega arith) (omega arith))
    | inl d ↦ elim (Option-cases (env.send attempt)) [
      | inl s ↦ rw (d, s, attempt_once) (done attempt waits s (omega arith) (omega arith))
      | inr (e, s) ↦ elim (Bool-cases (is_canceled e || is_deadline_exceeded e)) [
        | inl c ↦
            rw (d, s, c, attempt_once) (pending e (attempt + 1) waits (omega arith) (omega arith))
        | inr c ↦ elim (Bool-cases (is_retryable e)) [
          | inl r ↦ rw (d, s, c, r, attempt_once) (ih e)
          | inr r ↦
              rw (d, s, c, r, attempt_once)
                (refused e (attempt + 1) waits (omega arith) (omega arith) r)
        ]
      ]
    ]
  ]

  pub attempts_from-Returns :
      0 < length backoffs
      → (left attempt : ℕ) (waits : List ℤ) → attempt + left ≡ retries
      → length waits ≤ attempt
      → Returns P (attempts_from env backoffs events left attempt waits)
  unfolding attempts_from
  attempts_from-Returns h zero attempt waits eq lw =
      attempt_once-Returns attempt waits _ (omega arith) lw
        λ e. let n : attempt + 1 ≡ suc retries = omega arith in rw n (ended e waits (omega arith))
  attempts_from-Returns h (suc left) attempt waits eq lw =
      let (b, found) = backoff_for-total backoffs attempt h in
      let lw' : length (waits ++ b ∷ []) ≤ attempt + 1 =
        omega (arith, length-append {0} waits (b ∷ [])) in
      attempt_once-Returns attempt waits _ (omega arith) lw λ e.
        rw found (elim (Option-cases (env.done_waiting attempt)) [
          | inl d ↦
              rw d (attempts_from-Returns h left (attempt + 1) (waits ++ b ∷ []) (omega arith) lw')
          | inr (c, d) ↦
              rw d (pending c (attempt + 1) (waits ++ b ∷ []) (omega arith) (omega arith))
        ])
