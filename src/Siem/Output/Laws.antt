-- ===== src/Siem/Output/Laws.antt =====
-- No event is suppressed without being queued (pkg/siem/output.go).
use basecheck_agent.Prelude.{
  ℕ, ◌≡◌, ◌≢◌, ◌⊎◌, true, refl, sym, ap, subst, ◌∙◌, Option-cases, none, some, List, [], ◌∷◌, All,
  inl, inr,
}
use basecheck_agent.Siem.Event.{Time, Event}
use basecheck_agent.Siem.Queue.Store.{Codec, File}
use basecheck_agent.Siem.Queue.Enqueue.{Enqueued, QueueError, enqueue}
use basecheck_agent.Siem.Queue.Enqueue.Laws.{enqueue-IsSettled}
use basecheck_agent.Siem.Queue.Flush.{Flushed, flush}
use basecheck_agent.Siem.Dedup.{Deduplicator, should_emit}
use basecheck_agent.Siem.Dedup.Store.{DedupEnv, filter, release, record_delivered, reload_and_merge}
use basecheck_agent.Siem.Dedup.Laws.{IsWellFormed}
use basecheck_agent.Siem.Dedup.Contract.{IsSound, release-IsFree, operations-IsWellFormed}
use basecheck_agent.Siem.Output.{
  Library, Output, EmitEnv, Emitted, enqueue_result, with_step, release_all, enqueue_filtered,
  emit_events, OutputFlushEnv, OutputFlushed, record_result, release_abandoned, settle,
  flush_output,
}

-- The output's deduplicator lets the events through at a time.
abbrev pub IsFreeIn : Time → ℕ → List Event → Output → Type 0
IsFreeIn later window events o =
    (d : Deduplicator) × (o.dedup ≡ some d)
    × All (λ e. should_emit (reload_and_merge o.dedup_file d.cache) e later window ≡ true) events

release_all-some :
    (env : DedupEnv) (o : Output) (d : Deduplicator) (events : List Event)
    → o.dedup ≡ some d
    → release_all env o events ≡ with_step o (release env d o.dedup_file events)
unfolding release_all
release_all-some env o d events h = rw (h, release_all) refl

release_all-IsFreeIn :
    (env : DedupEnv) (o : Output) (d : Deduplicator) (e : Event) (es : List Event) (later : Time)
    (window : ℕ)
    → o.dedup ≡ some d
    → IsWellFormed d.cache
    → IsSound env
    → IsFreeIn later window (e ∷ es) (release_all env o (e ∷ es))
release_all-IsFreeIn env o d e es later window h w sound =
    let r = release env d o.dedup_file (e ∷ es) in
    subst (IsFreeIn later window (e ∷ es)) (sym (release_all-some env o d (e ∷ es) h))
      (r.dedup, refl, (release-IsFree env d o.dedup_file e es later window sound w).1)

abbrev pub IsFailed : Time → ℕ → Output → List Event → Emitted → Type 0
IsFailed later window o events r =
    (r.error ≢ none)
    × ((r.emitted ≡ 0)
        × ((r.output.queue_file ≡ o.queue_file) × IsFreeIn later window events r.output))

-- Either there is no error, or nothing is emitted, the queue's file is as it was, and the
-- events are free again.
abbrev pub IsHandled : Time → ℕ → Output → List Event → Emitted → Type 0
IsHandled later window o events r = (r.error ≡ none) ⊎ IsFailed later window o events r

release_all-queue_file :
    (env : DedupEnv) (o : Output) (events : List Event)
    → (release_all env o events).queue_file ≡ o.queue_file
unfolding release_all
release_all-queue_file env o events = elim (Option-cases o.dedup) [
  | inl n ↦ rw (n, release_all) refl
  | inr (d, n) ↦ rw (n, release_all) refl
]

failed_enqueue :
    (env : EmitEnv) (o : Output) (events : List Event) (q : Enqueued) (x : QueueError)
    → q.error ≡ some x
    → enqueue_result env o events q ≡ (record {
      output = release_all env.releasing (record o { queue = q.queue; queue_file = q.file }) events;
      emitted = 0;
      rejected = q.rejected;
      error = some x;
    })
unfolding enqueue_result
failed_enqueue env o events q x h = rw (h, enqueue_result) refl

enqueue_result_error :
    (env : EmitEnv) (o : Output) (events : List Event) (q : Enqueued)
    → q.error ≡ none
    → (enqueue_result env o events q).error ≡ none
unfolding enqueue_result
enqueue_result_error env o events q h = rw (h, enqueue_result) refl

module _ (lib : Library) where
  enqueue_filtered-IsHandled :
      (env : EmitEnv) (o : Output) (d : Deduplicator) (events : List Event) (later : Time)
      (window : ℕ)
      → o.dedup ≡ some d
      → IsWellFormed d.cache
      → IsSound env.releasing
      → IsHandled later window o events (enqueue_filtered lib env o events)
  unfolding enqueue_filtered
  enqueue_filtered-IsHandled env o d [] later window h w sound = inl refl
  enqueue_filtered-IsHandled env o d (e ∷ es) later window h w sound =
      let q = enqueue lib.to_upper lib.codec env.enqueueing o.queue o.queue_file (e ∷ es) in
      let settled =
        enqueue-IsSettled lib.to_upper lib.codec env.enqueueing o.queue o.queue_file (e ∷ es) in
      let after : Output = record o { queue = q.queue; queue_file = q.file } in
      elim (Option-cases q.error) [
        | inl n ↦ inl (enqueue_result_error env o (e ∷ es) q n)
        | inr (x, s) ↦ elim settled [
          | inl (n, _) ↦ inl (enqueue_result_error env o (e ∷ es) q n)
          | inr (_, refused) ↦ inr (
              subst (λ r. IsFailed later window o (e ∷ es) r)
                (sym (failed_enqueue env o (e ∷ es) q x s))
                (
                  (λ n. cc),
                  (
                    refl,
                    (
                      release_all-queue_file env.releasing after (e ∷ es) ∙ refused.file_kept,
                      release_all-IsFreeIn env.releasing after d e es later window h w sound,
                    ),
                  ),
                ))
        ]
      ]

  -- With deduplication on and no failure in releasing: emitting either reports no error, or it emits
  -- nothing, leaves the queue's file as it was, and the events that the filter had reserved pass
  -- the filter again at any time, so that a later run reports them.
  pub emit_events-IsHandled :
      (env : EmitEnv) (o : Output) (d : Deduplicator) (e : Event) (es : List Event) (later : Time)
      (window : ℕ)
      → o.dedup ≡ some d
      → IsWellFormed d.cache
      → IsSound env.releasing
      → IsHandled later window o
          (filter env.filtering d o.dedup_file (e ∷ es)).result
          (emit_events lib env o (e ∷ es))
  unfolding emit_events
  emit_events-IsHandled env o d e es later window h w sound =
      let s = filter env.filtering d o.dedup_file (e ∷ es) in
      let keeps = (operations-IsWellFormed env.filtering d o.dedup_file (e ∷ es) w).0 in
      let filtered : emit_events lib env o (e ∷ es)
          ≡ enqueue_filtered lib env (with_step o s) s.result =
        rw (h, emit_events) refl in
      subst (IsHandled later window o s.result) (sym filtered) (
        enqueue_filtered-IsHandled env (with_step o s) s.dedup s.result later window refl keeps
          sound)

record_result_kept :
    (env : DedupEnv) (o : Output) (d : Deduplicator) (events : List Event)
    → o.dedup ≡ some d
    → IsWellFormed d.cache
    → (k : Deduplicator) × ((record_result env o events).dedup ≡ some k) × IsWellFormed k.cache
unfolding record_result
record_result_kept env o d [] h w = (d, h, w)
record_result_kept env o d (e ∷ es) h w =
    let s = record_delivered env d o.dedup_file (e ∷ es) in
    let keeps = (operations-IsWellFormed env d o.dedup_file (e ∷ es) w).2 in
    let recorded : record_result env o (e ∷ es) ≡ with_step o s = rw (h, record_result) refl in
    (s.dedup, ap (λ x. x.dedup) recorded, keeps)

settle-IsFreeIn :
    (env : OutputFlushEnv) (o : Output) (f : Flushed) (d : Deduplicator) (e : Event)
    (es : List Event) (later : Time) (window : ℕ)
    → f.result.abandoned ≡ e ∷ es
    → o.dedup ≡ some d
    → IsWellFormed d.cache
    → IsSound env.releasing
    → IsFreeIn later window (e ∷ es) (settle env o f).output
unfolding settle release_abandoned
settle-IsFreeIn env o f d e es later window a h w sound =
    let after : Output = record o { queue = f.queue; queue_file = f.file } in
    let recorded = record_result env.recording after f.result.delivered in
    let (k, kept, well) = record_result_kept env.recording after d f.result.delivered h w in
    let settled : (settle env o f).output ≡ release_all env.releasing recorded (e ∷ es) =
      ap (release_abandoned env.releasing recorded) a in
    subst (IsFreeIn later window (e ∷ es)) (sym settled)
      (release_all-IsFreeIn env.releasing recorded k e es later window kept well sound)

-- Events that a flush gives up on, because delivery failed for good and the dead-letter file has
-- them, pass the filter again at any time, if deduplication is on and the release does not fail.
pub flush_output-IsFreeIn :
    (c : Codec) (env : OutputFlushEnv) (o : Output) (meanwhile : File → File) (f : Flushed)
    (d : Deduplicator) (e : Event) (es : List Event) (later : Time) (window : ℕ)
    → flush c env.flushing o.queue o.queue_file meanwhile ≡ some f
    → f.result.abandoned ≡ e ∷ es
    → o.dedup ≡ some d
    → IsWellFormed d.cache
    → IsSound env.releasing
    → (r : OutputFlushed) × (flush_output c env o meanwhile ≡ some r)
      × IsFreeIn later window f.result.abandoned r.output
unfolding flush_output
flush_output-IsFreeIn c env o meanwhile f d e es later window flushed a h w sound = (
  settle env o f,
  rw (flushed, flush_output) refl,
  subst (λ events. IsFreeIn later window events (settle env o f).output) (sym a)
      (settle-IsFreeIn env o f d e es later window a h w sound),
)
