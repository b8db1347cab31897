-- ===== src/Siem/Queue/Open/Laws.antt =====
-- The queue across a restart of the agent (pkg/siem/queue.go).
use basecheck_agent.Prelude.{
  String, ◌≡◌, ◌≤◌, refl, sym, ap, ◌∙◌, inl, inr, none, some, map, List, [], ◌∷◌, ◌++◌, length, ok,
  err, false, All,
}
use basecheck_agent.Siem.Event.{Event}
use basecheck_agent.Siem.Queue.{QueueConfig, Queue, with_defaults}
use basecheck_agent.Siem.Queue.Store.{
  Codec, File, StoreError, token_too_long, max_scan_token_size, load_persisted_events, persist,
}
use basecheck_agent.Siem.Queue.Store.Laws.{
  IsReadable, load_persisted_events-persist, load_persisted_events-oversized,
}
use basecheck_agent.Siem.Queue.Enqueue.{EnqueueEnv, enqueue}
use basecheck_agent.Siem.Queue.Enqueue.Laws.{IsQueued, enqueue-IsSettled}
use basecheck_agent.Siem.Queue.Open.{OpenEnv, Opened, moved, move_aside, new_queue}

-- An open queue with these events.
abbrev pub holding : QueueConfig → List Event → Queue
holding cfg events = record { config = with_defaults cfg; pending = events; closed = false }

abbrev pub calm : OpenEnv
calm = record { lock = none; read = none; rename = none }

new_queue-loaded :
    (c : Codec) (cfg : QueueConfig) (file : File) (events : List Event)
    → load_persisted_events c none file ≡ ok events
    → (new_queue c calm cfg file).result ≡ ok (holding cfg events)
unfolding new_queue
new_queue-loaded c cfg file events h = rw (h, new_queue) refl

-- What Enqueue has accepted outlives the process: after an Enqueue without an error, a queue that is
-- opened on its file holds the events that were on disk before and behind them all valid events of
-- the batch, in order and with a new delivery ID where an export has none, if each of these decodes to
-- itself from its line and the line fits the scanner.
pub new_queue-enqueue :
    (to_upper : String → String) (c : Codec) (env : EnqueueEnv) (q : Queue) (file : File)
    (events : List Event) (cfg : QueueConfig)
    → (enqueue to_upper c env q file events).error ≡ none
    → All (IsReadable c) (enqueue to_upper c env q file events).queue.pending
    → (let r = enqueue to_upper c env q file events in
        (added : IsQueued to_upper c env q file events r) × ((new_queue c calm cfg r.file).result
          ≡ ok (holding cfg (added.current ++ added.added))))
unfolding persist
new_queue-enqueue to_upper c env q file events cfg fine readable =
    let r = enqueue to_upper c env q file events in
    elim (enqueue-IsSettled to_upper c env q file events) [
      | inr (refused, _) ↦ absurd (refused fine)
      | inl (_, queued) ↦
          let written = queued.written ∙ ap (λ es. some (map c.encode es)) (sym queued.pending) in
          (
            queued,
            new_queue-loaded c cfg r.file r.queue.pending (
                  ap (load_persisted_events c none) written
                  ∙ load_persisted_events-persist c r.queue.pending none readable)
                ∙ ap (λ es. ok (holding cfg es)) queued.pending,
          )
    ]

new_queue-unreadable :
    (c : Codec) (cfg : QueueConfig) (file : File) (x : StoreError)
    → load_persisted_events c none file ≡ err x
    → new_queue c calm cfg file ≡ (record { result = err (moved x); file = none; corrupt = file })
unfolding new_queue move_aside
new_queue-unreadable c cfg file x h = rw (h, new_queue) refl

-- One event of 64 KB or more in the file: the next process does not open the queue and puts the whole
-- file aside, whatever readable events stand before it, and the one after that opens an empty queue.
pub new_queue-oversized :
    (c : Codec) (before : List Event) (e : Event) (after : List Event) (file : File)
    (cfg : QueueConfig)
    → All (IsReadable c) before
    → max_scan_token_size ≤ length (c.encode e)
    → (let (written, failed) = persist c none (before ++ e ∷ after) file in
        let next = new_queue c calm cfg written in
        (failed ≡ none)
        × ((next.result ≡ err (moved token_too_long))
            × ((next.corrupt ≡ written)
                × ((new_queue c calm cfg next.file).result ≡ ok (holding cfg [])))))
unfolding load_persisted_events
new_queue-oversized c before e after file cfg readable big =
    let (fine, fails) = load_persisted_events-oversized c before e after file readable big in
    let written = (persist c none (before ++ e ∷ after) file).0 in
    let next = new_queue-unreadable c cfg written token_too_long fails in
    let reopened : (new_queue c calm cfg none).result ≡ ok (holding cfg []) =
      new_queue-loaded c cfg none [] refl in
    (
      fine,
      (
        ap (λ (o : Opened). o.result) next,
        (
          ap (λ (o : Opened). o.corrupt) next,
          ap (λ (o : Opened). (new_queue c calm cfg o.file).result) next ∙ reopened,
        ),
      ),
    )
