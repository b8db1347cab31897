-- ===== src/Siem/Output/Open/Laws.antt =====
-- NewOutput keeps the events that wait in the queue's file (pkg/siem/output.go).
use basecheck_agent.Prelude.{
  ℤ, ◌<◌, ◌≡◌, ◌⊎◌, refl, sym, ap, ◌∙◌, subst, true, Option, none, some, List, [], append-nil,
  length, ok, err, All, Bool-cases, Option-cases, List-cases, inl, inr, arith,
}
use basecheck_agent.Text.{Text}
use basecheck_agent.Config.Siem.{Url}
use basecheck_agent.Siem.Event.{Event}
use basecheck_agent.Siem.Destination.{Destination, new_destination}
use basecheck_agent.Siem.Queue.{Queue, with_defaults}
use basecheck_agent.Siem.Queue.Store.{Codec, File, load_persisted_events, io_failed}
use basecheck_agent.Siem.Queue.Flush.{Flushed, flush, close}
use basecheck_agent.Siem.Queue.Flush.Arrivals.{HasId}
use basecheck_agent.Siem.Queue.Flush.Laws.{IsFlushed, flush-IsFlushed}
use basecheck_agent.Siem.Queue.Open.{
  OpenError, Opened, new_queue, move_aside, lock_failed as unlocked, moved as aside,
  stuck as caught,
}
use basecheck_agent.Siem.Queue.Open.Laws.{holding}
use basecheck_agent.Siem.Dedup.{DedupEntry, Deduplicator}
use basecheck_agent.Siem.Dedup.Store.{
  OpenedDedup, opened, lock_failed, moved, stuck, new_deduplicator,
}
use basecheck_agent.Siem.Output.{Output}
use basecheck_agent.Siem.Output.Open.{
  OutputConfig, StartEnv, StartError, bad_destination, dead_letter_failed, dedup_failed,
  queue_failed, Started, not_started, started_with, give_up, after_dedup, start_dedup, after_queue,
  start_queue, start_dead_letter, new_output,
}

-- The opened queue as `Close` flushes it.
abbrev pub shut : OutputConfig → List Event → Queue
shut cfg batch = record (holding cfg.queue batch) { closed = true }

-- The files of the queue when there is no output: the queue's file is as it was, or it was put aside
-- as it was, or it is what a flush of the opened queue, which is closed by then, has left of it, and
-- that flush has shared the events out.
abbrev pub IsKept : Codec → StartEnv → OutputConfig → List Event → File → Started → Type 0
IsKept c env cfg batch file s =
    (s.queue_file ≡ file)
    ⊎ (((s.queue_file ≡ none) × (s.corrupt ≡ file))
        ⊎ ((f : Flushed) × (flush c env.closing (shut cfg batch) file (λ z. z) ≡ some f)
            × (s.queue_file ≡ f.file)
            × IsFlushed c env.closing batch [] file f))

-- The output holds the events, and the file is as it was; or there is an error, and they are kept.
abbrev pub IsBegun : Codec → StartEnv → OutputConfig → List Event → File → Started → Type 0
IsBegun c env cfg batch file s =
    ((o : Output) × (with : Destination × ℤ) × (s.result ≡ ok (o, with))
      × (o.queue.pending ≡ batch)
      × (o.queue_file ≡ file)
      × (s.queue_file ≡ file))
    ⊎ ((x : StartError) × (s.result ≡ err x) × IsKept c env cfg batch file s)

abbrev pub Begins : Codec → StartEnv → OutputConfig → List Event → File → Option Started → Type 0
Begins c env cfg batch file r = (s : Started) × (r ≡ some s) × IsBegun c env cfg batch file s

module _ (c : Codec) (env : StartEnv) (cfg : OutputConfig) (batch : List Event) (file : File)
    (on_disk : load_persisted_events c none file ≡ ok batch) (has_ids : All HasId batch) where
  retries_given : 0 < length (with_defaults cfg.queue).retry_backoff_seconds
  unfolding with_defaults
  retries_given = elim (List-cases cfg.queue.retry_backoff_seconds) [
    | inl e ↦ rw e (omega arith)
    | inr (b, bs, e) ↦ rw e (omega arith)
  ]

  give_up-Begins :
      (x : OpenedDedup) (dedup_file : List DedupEntry)
      → Begins c env cfg batch file (give_up c env cfg x (holding cfg.queue batch) file dedup_file)
  unfolding give_up close
  give_up-Begins x dedup_file =
      let whole = on_disk ∙ ap ok (sym (append-nil batch)) in
      let (f, run, flushed) =
        flush-IsFlushed c env.closing (shut cfg batch) file (λ z. z) batch [] retries_given on_disk
          whole has_ids tt in
      (
        not_started (dedup_failed x) f.file dedup_file,
        rw (run, give_up) refl,
        inr (dedup_failed x, refl, inr (inr (f, run, refl, flushed))),
      )

  started-Begins :
      (dest : Destination) (dedup : Option Deduplicator) (q : Queue) (dedup_file : List DedupEntry)
      → q.pending ≡ batch
      → Begins c env cfg batch file (some (started_with cfg dest dedup q file dedup_file))
  started-Begins dest dedup q dedup_file held = (_, refl, inl (_, _, refl, held, refl, refl))

  opened-Begins :
      (dest : Destination) (d : OpenedDedup) (after : List DedupEntry)
      → Begins c env cfg batch file
          (after_dedup c env cfg dest (holding cfg.queue batch) file after d)
  unfolding after_dedup
  opened-Begins dest (opened d) after =
      started-Begins dest (some d) (holding cfg.queue batch) after refl
  opened-Begins dest (lock_failed e) after = give_up-Begins (lock_failed e) after
  opened-Begins dest (moved e) after = give_up-Begins (moved e) after
  opened-Begins dest (stuck e x) after = give_up-Begins (stuck e x) after

  start_dedup-Begins :
      (dest : Destination) (dedup_file : List DedupEntry)
      → Begins c env cfg batch file
          (start_dedup c env cfg dest (holding cfg.queue batch) file dedup_file)
  unfolding start_dedup
  start_dedup-Begins dest dedup_file = elim (Bool-cases cfg.deduplication_disabled) [
    | inl off ↦
        simp (off, start_dedup) (started-Begins dest none (holding cfg.queue batch) dedup_file refl)
    | inr on ↦
        let (d, after) =
          new_deduplicator env.dedup env.rename cfg.deduplication_window_hours dedup_file in
        simp (on, start_dedup) (opened-Begins dest d after)
  ]

  -- The queue holds the events, or the file is left or put aside.
  new_queue-cases :
      (new_queue c env.queue cfg.queue file
        ≡ (record { result = ok (holding cfg.queue batch); file = file; corrupt = none }))
      ⊎ ((x : OpenError) × ((new_queue c env.queue cfg.queue file
              ≡ (record { result = err x; file = file; corrupt = none }))
            ⊎ (new_queue c env.queue cfg.queue file
                ≡ (record { result = err x; file = none; corrupt = file }))))
  unfolding new_queue move_aside load_persisted_events
  new_queue-cases = elim (Option-cases env.queue.lock) [
    | inr (e, l) ↦ inr (unlocked e, inl (rw (l, new_queue) refl))
    | inl l ↦ elim (Option-cases env.queue.read) [
      | inl r ↦ inl (rw (l, r, on_disk, new_queue) refl)
      | inr (e, r) ↦ elim (Option-cases env.queue.rename) [
        | inl m ↦ inr (aside (io_failed e), inr (rw (l, r, m, new_queue) refl))
        | inr (x, m) ↦ inr (caught (io_failed e) x, inl (rw (l, r, m, new_queue) refl))
      ]
    ]
  ]

  start_queue-Begins :
      (dest : Destination) (dedup_file : List DedupEntry)
      → Begins c env cfg batch file (start_queue c env cfg dest file dedup_file)
  unfolding start_queue after_queue
  start_queue-Begins dest dedup_file =
      let goal : Opened → Type 0 =
        λ o. Begins c env cfg batch file (after_queue c env cfg dest dedup_file o) in
      elim new_queue-cases [
        | inl e ↦ subst goal (sym e) (start_dedup-Begins dest dedup_file)
        | inr (x, inl e) ↦ subst goal (sym e) (_, refl, inr (queue_failed x, refl, inl refl))
        | inr (x, inr e) ↦
            subst goal (sym e) (_, refl, inr (queue_failed x, refl, inr (inl (refl, refl))))
      ]

  start_dead_letter-Begins :
      (dest : Destination) (dedup_file : List DedupEntry)
      → Begins c env cfg batch file (start_dead_letter c env cfg dest file dedup_file)
  unfolding start_dead_letter
  start_dead_letter-Begins dest dedup_file =
      let rest = start_queue-Begins dest dedup_file in
      elim (Bool-cases cfg.has_dead_letter) [
        | inr w ↦ simp (w, start_dead_letter) rest
        | inl y ↦ elim (Option-cases env.dead_letter) [
          | inl e ↦ simp (y, e, start_dead_letter) rest
          | inr (e, d) ↦
              simp (y, d, start_dead_letter) (_, refl, inr (dead_letter_failed e, refl, inl refl))
        ]
      ]

-- NewOutput loses no event that waits in a readable file, if the events have delivery IDs: it returns,
-- and either the output holds the events of the file, which is as it was, or there is an error, and
-- the file is as it was, or put aside as it was, or it is what a flush of the opened queue has left,
-- which has shared its events out between those that it reports as delivered or abandoned and those
-- that the file still holds, or has left the file alone.
pub new_output-IsBegun :
    (c : Codec) (env : StartEnv) (cfg : OutputConfig) (parse_url : Text → Option Url)
    (machine : Text) (batch : List Event) (file : File) (dedup_file : List DedupEntry)
    → load_persisted_events c none file ≡ ok batch
    → All HasId batch
    → Begins c env cfg batch file (new_output c env cfg parse_url machine file dedup_file)
unfolding new_output
new_output-IsBegun c env cfg parse_url machine batch file dedup_file on_disk has_ids =
    elim (Option-cases (new_destination parse_url machine cfg.destination)) [
      | inl e ↦ rw (e, new_output) (_, refl, inr (bad_destination, refl, inl refl))
      | inr (dest, e) ↦
          rw (e, new_output)
            (start_dead_letter-Begins c env cfg batch file on_disk has_ids dest dedup_file)
    ]
