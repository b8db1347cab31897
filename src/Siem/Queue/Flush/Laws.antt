-- ===== src/Siem/Queue/Flush/Laws.antt =====
-- What `Queue.Flush` of pkg/siem/queue.go promises on every branch.
use basecheck_agent.Prelude.{
  ℕ, ◌<◌, ◌≡◌, ◌⊎◌, inl, inr, refl, ◌∙◌, Option, none, some, List, [], ◌∷◌, ◌++◌, map, Perm, ok,
  length, to_ℕ, All, Option-cases, arith,
}
use basecheck_agent.Siem.Event.{Event}
use basecheck_agent.Siem.Queue.{Queue}
use basecheck_agent.Siem.Queue.Store.{Codec, File, io_failed, load_persisted_events, persist}
use basecheck_agent.Siem.Queue.Deliver.{DeliveryError, Outcome, deliver_with_retry}
use basecheck_agent.Siem.Queue.Deliver.Laws.{IsAccounted, deliver_with_retry-IsAccounted}
use basecheck_agent.Siem.Queue.Flush.{
  FlushEnv, Flushed, FlushError, flush_lock_failed, lock_failed, reload_failed, delivery_failure,
  finish, flush, flush_batch, not_flushed,
}
use basecheck_agent.Siem.Queue.Flush.Arrivals.{HasId, IsNew, events_not_in_delivery_ids-append}

-- What a flush leaves, when the file held `batch` at first and `batch ++ arrived` before the final
-- write, in `found`.
pub record IsFlushed (c : Codec) (env : FlushEnv) (batch arrived : List Event) (found : File)
    (r : Flushed) : Type 0 where
  -- either the file is left as it was found, or it holds what remains of the batch and then what
  -- arrived, and the batch is shared out between delivered, remaining and abandoned
  pub kept :
      (r.file ≡ found)
      ⊎ ((remaining : List Event) × (r.file ≡ some (map c.encode (remaining ++ arrived)))
          × Perm (r.result.delivered ++ (remaining ++ r.result.abandoned)) batch)
  -- no error means that the batch is delivered
  pub clean : r.result.error ≡ none → (r.result.delivered ≡ batch) × (r.result.abandoned ≡ [])
  -- what is reported as delivered is what a send took without an error
  pub confirmed : (r.result.delivered ≡ []) ⊎ ((n : ℕ) × (env.delivery.send n ≡ none))
  -- what is reported as delivered is the batch or nothing
  pub whole : (r.result.delivered ≡ batch) ⊎ (r.result.delivered ≡ [])

no_failure : (e : Option DeliveryError) → delivery_failure e ≡ none → e ≡ none
no_failure none h = refl
no_failure (some e) h = cc

module _ (c : Codec) (env : FlushEnv) (batch arrived : List Event) (found : File)
    (has_ids : All HasId batch) (new : All (IsNew batch) arrived)
    (on_disk : load_persisted_events c none found ≡ ok (batch ++ arrived)) where
  not_flushed-IsFlushed :
      (q : Queue) (x : FlushError) → IsFlushed c env batch arrived found (not_flushed c q found x)
  not_flushed-IsFlushed q x = record {
    kept = inl refl;
    clean = λ e. cc;
    confirmed = inl refl;
    whole = inr refl;
  }

  whole_of :
      (retries : ℕ) (o : Outcome)
      → IsAccounted env.delivery retries batch o
      → (o.delivered ≡ batch) ⊎ (o.delivered ≡ [])
  whole_of retries o a = elim a.all_or_nothing [ inl (_, (d, _)) ↦ inl d | inr (d, _) ↦ inr d ]

  confirmed_of :
      (retries : ℕ) (o : Outcome)
      → IsAccounted env.delivery retries batch o
      → (o.delivered ≡ []) ⊎ ((n : ℕ) × (env.delivery.send n ≡ none))
  confirmed_of retries o a = elim a.confirmed [
    | inl nothing ↦ inl nothing
    | inr (n, _, sent) ↦ inr (n, sent)
  ]

  clean_of :
      (retries : ℕ) (o : Outcome)
      → IsAccounted env.delivery retries batch o
      → o.error ≡ none
      → (o.delivered ≡ batch) × (o.abandoned ≡ [])
  clean_of retries o a e = elim a.all_or_nothing [
    | inl (_, (d, (_, ab))) ↦ (d, ab)
    | inr (_, n) ↦ absurd (n e)
  ]

  finish-IsFlushed :
      (q : Queue) (retries : ℕ) (o : Outcome)
      → IsAccounted env.delivery retries batch o
      → IsFlushed c env batch arrived found (finish c env q batch o found)
  unfolding finish persist load_persisted_events
  finish-IsFlushed q retries o a = elim (Option-cases env.last_lock) [
    | inr (e, l) ↦
        rw (l, finish)
          (record {
            kept = inl refl;
            clean = λ x. cc;
            confirmed = confirmed_of retries o a;
            whole = whole_of retries o a;
          })
    | inl l ↦ elim (Option-cases env.last_read) [
      | inr (e, r) ↦
          rw (l, r, finish)
            (record {
              kept = inl refl;
              clean = λ x. cc;
              confirmed = confirmed_of retries o a;
              whole = whole_of retries o a;
            })
      | inl r ↦
          rw (l, r, on_disk, finish, events_not_in_delivery_ids-append batch arrived has_ids new)
            (elim (Option-cases env.write) [
              | inr (e, w) ↦ rw w (record {
                kept = inl refl;
                clean = λ x. cc;
                confirmed = confirmed_of retries o a;
                whole = whole_of retries o a;
              })
              | inl w ↦ rw w (record {
                kept = inr (o.remaining, refl, a.partition);
                clean = λ x. clean_of retries o a (no_failure o.error x);
                confirmed = confirmed_of retries o a;
                whole = whole_of retries o a;
              })
            ])
    ]
  ]

flush_batch-IsFlushed :
    (c : Codec) (env : FlushEnv) (q : Queue) (file found : File) (meanwhile : File → File)
    (batch arrived : List Event)
    → 0 < length q.config.retry_backoff_seconds
    → meanwhile file ≡ found
    → load_persisted_events c none found ≡ ok (batch ++ arrived)
    → All HasId batch
    → All (IsNew batch) arrived
    → (r : Flushed) × (flush_batch c env q batch file meanwhile ≡ some r)
      × IsFlushed c env batch arrived found r
unfolding flush_batch
flush_batch-IsFlushed c env q file found meanwhile [] arrived h f on_disk ids new = (
  _,
  refl,
  record { kept = inl f; clean = λ _. (refl, refl); confirmed = inl refl; whole = inr refl },
)
flush_batch-IsFlushed c env q file found meanwhile (e ∷ es) arrived h f on_disk ids new =
    let retries = to_ℕ q.config.retry_max in
    let backoffs = q.config.retry_backoff_seconds in
    let q' = record q { pending = e ∷ es } in
    let accounted = deliver_with_retry-IsAccounted env.delivery retries backoffs (e ∷ es) h in
    elim (Option-cases (deliver_with_retry env.delivery retries backoffs (e ∷ es))) [
      | inl panic ↦ absurd (rw panic at accounted)
      | inr (o, d) ↦ (
        finish c env q' (e ∷ es) o found,
        rw (d, f, flush_batch),
        finish-IsFlushed c env (e ∷ es) arrived found ids new on_disk q' retries o
            (rw d at accounted),
      )
    ]

flush_started :
    (c : Codec) (env : FlushEnv) (q : Queue) (file : File) (meanwhile : File → File)
    (batch : List Event)
    → env.flush_lock ≡ none
    → env.lock ≡ none
    → env.read ≡ none
    → load_persisted_events c none file ≡ ok batch
    → flush c env q file meanwhile ≡ flush_batch c env q batch file meanwhile
unfolding flush load_persisted_events
flush_started c env q file meanwhile batch l k r loaded = ground (arith, l, k, r, loaded)

-- Whatever fails, a flush with a backoff configured returns and loses no event: with `batch` in the
-- file at first and `batch ++ arrived` before the final write, the file is left as found, or holds
-- the rest of the batch and then all that arrived, where the batch is shared out between the
-- delivered, the remaining and the abandoned. It is reported as delivered whole or not at all, whole
-- if there is no error, and only if a send had no error. The events of the batch have delivery IDs, and none that arrived
-- has one of these.
pub flush-IsFlushed :
    (c : Codec) (env : FlushEnv) (q : Queue) (file : File) (meanwhile : File → File)
    (batch arrived : List Event)
    → 0 < length q.config.retry_backoff_seconds
    → load_persisted_events c none file ≡ ok batch
    → load_persisted_events c none (meanwhile file) ≡ ok (batch ++ arrived)
    → All HasId batch
    → All (IsNew batch) arrived
    → (r : Flushed) × (flush c env q file meanwhile ≡ some r)
      × IsFlushed c env batch arrived (meanwhile file) r
unfolding flush load_persisted_events
flush-IsFlushed c env q file meanwhile batch arrived h loaded on_disk ids new =
    let no = not_flushed-IsFlushed c env batch arrived (meanwhile file) ids new on_disk q in
    elim (Option-cases env.flush_lock) [
      | inr (e, l) ↦ (not_flushed c q (meanwhile file) (flush_lock_failed e), rw (l, flush), no _)
      | inl l ↦ elim (Option-cases env.lock) [
        | inr (e, k) ↦ (not_flushed c q (meanwhile file) (lock_failed e), rw (l, k, flush), no _)
        | inl k ↦ elim (Option-cases env.read) [
          | inr (e, r) ↦ (
            not_flushed c q (meanwhile file) (reload_failed (io_failed e)),
            rw (l, k, r, flush),
            no _,
          )
          | inl r ↦
              let (result, ends, flushed) =
                flush_batch-IsFlushed c env q file (meanwhile file) meanwhile batch arrived h refl
                  on_disk ids new in
              (result, flush_started c env q file meanwhile batch l k r loaded ∙ ends, flushed)
        ]
      ]
    ]
