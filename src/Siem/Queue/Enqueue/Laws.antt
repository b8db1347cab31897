-- ===== src/Siem/Queue/Enqueue/Laws.antt =====
-- What `Queue.Enqueue` of pkg/siem/queue.go promises on every branch.
use basecheck_agent.Prelude.{
  ap, if◌then◌else◌, ◌∙◌, str_eq, eq_iff, false, Option, ℕ, suc, ◌+◌, ◌≤◌, ◌≡◌, ◌⊎◌, inl, inr, refl,
  String, true, none, some, List, [], ◌∷◌, ◌++◌, map, Result-cases, ok, length, length-append, ltb,
  to_ℕ, arith, All, Bool-cases, Option-cases,
}
use basecheck_agent.Siem.Event.{Event, EventExport}
use basecheck_agent.Siem.Event.Validation.{is_valid}
use basecheck_agent.Siem.Queue.{Queue}
use basecheck_agent.Siem.Queue.Store.{Codec, File, load_persisted_events, persist}
use basecheck_agent.Siem.Queue.Enqueue.{
  EnqueueEnv, QueueError, Admission, Enqueued, admit, assign_delivery_id, enqueue, enqueue_onto,
  not_enqueued,
}

module _ (to_upper : String → String) (env : EnqueueEnv) where
  -- Each event of the batch is either queued or counted as rejected, and what is queued is valid.
  pub admit_counts :
      (i : ℕ) (es : List Event)
      → length (admit to_upper env i es).valid + (admit to_upper env i es).rejected ≡ length es
  unfolding admit
  admit_counts i [] = refl
  admit_counts i (e ∷ es) =
      elim (Bool-cases (is_valid to_upper (assign_delivery_id (env.fresh i) e))) [
        | inl yes_valid ↦ rw (yes_valid, admit) (omega (arith, admit_counts (suc i) es))
        | inr not_valid ↦ rw (not_valid, admit) (omega (arith, admit_counts (suc i) es))
      ]

  pub admit-valid :
      (i : ℕ) (es : List Event)
      → All (λ e. is_valid to_upper e ≡ true) (admit to_upper env i es).valid
  unfolding admit
  admit-valid i [] = tt
  admit-valid i (e ∷ es) =
      elim (Bool-cases (is_valid to_upper (assign_delivery_id (env.fresh i) e))) [
        | inl yes_valid ↦ rw (yes_valid, admit) (yes_valid, admit-valid (suc i) es)
        | inr not_valid ↦ rw (not_valid, admit) (admit-valid (suc i) es)
      ]

-- An event as it is queued: with the new ID where its export has none, else as it came.
abbrev pub IsNamed : String → Event → Event → Type 0
IsNamed id e named =
    ((x : EventExport) × (e.export ≡ some x)
      × (x.delivery_id ≡ "")
      × (named ≡ (record e { export = some (record x { delivery_id = id }) })))
    ⊎ (((x : EventExport) → e.export ≡ some x → x.delivery_id ≡ "" → ⊥) × (named ≡ e))

-- What is queued of a batch: its events in order, each with an ID, without those that are not valid.
abbrev pub IsAdmitted : (String → String) → (ℕ → String) → ℕ → List Event → List Event → Type 0
IsAdmitted to_upper fresh i [] added = added ≡ []
IsAdmitted to_upper fresh i (e ∷ es) added =
    (named : Event) × IsNamed (fresh i) e named
    × (((is_valid to_upper named ≡ true)
          × ((more : List Event) × (added ≡ named ∷ more)
              × IsAdmitted to_upper fresh (suc i) es more))
        ⊎ ((is_valid to_upper named ≡ false) × IsAdmitted to_upper fresh (suc i) es added))

-- The ID by what the event's export is.
abbrev assigned_over : String → Event → Option EventExport → Event
assigned_over id e none = e
assigned_over id e (some x) =
    if str_eq x.delivery_id ""
    then record e { export = some (record x { delivery_id = id }) }
    else e

assign_delivery_id-IsNamed : (id : String) (e : Event) → IsNamed id e (assign_delivery_id id e)
unfolding assign_delivery_id
assign_delivery_id-IsNamed id e =
    let over : (o : Option EventExport)
        → e.export ≡ o
        → assign_delivery_id id e ≡ assigned_over id e o =
      λ o h. ap (assigned_over id e) h in
    elim (Option-cases e.export) [
      | inl no_export ↦ inr (λ x h k. cc, over none no_export)
      | inr (x, export) ↦ elim (Bool-cases (str_eq x.delivery_id "")) [
        | inl blank ↦
            inl (x, export, (eq_iff x.delivery_id "").0 blank, over (some x) export ∙ rw blank refl)
        | inr given ↦ inr (
          λ y h k.
              ground (arith, export, h, k, given, eq_iff x.delivery_id "", eq_iff y.delivery_id ""),
          over (some x) export ∙ rw given refl,
        )
      ]
    ]

admit-IsAdmitted :
    (to_upper : String → String) (env : EnqueueEnv) (i : ℕ) (es : List Event)
    → IsAdmitted to_upper env.fresh i es (admit to_upper env i es).valid
unfolding admit
admit-IsAdmitted to_upper env i [] = refl
admit-IsAdmitted to_upper env i (e ∷ es) =
    let named = assign_delivery_id (env.fresh i) e in
    let rest = admit-IsAdmitted to_upper env (suc i) es in
    (
      named,
      assign_delivery_id-IsNamed (env.fresh i) e,
      elim (Bool-cases (is_valid to_upper named)) [
        | inl yes_valid ↦ inl (yes_valid, (_, rw (yes_valid, admit) refl, rest))
        | inr not_valid ↦ inr (not_valid, rw (not_valid, admit) rest)
      ],
    )

-- The batch was queued behind what was on disk, within the limit.
pub record IsQueued (to_upper : String → String) (c : Codec) (env : EnqueueEnv) (q : Queue)
    (file : File) (events : List Event) (r : Enqueued) : Type 0 where
  pub current : List Event
  pub added : List Event
  pub loaded : load_persisted_events c env.read file ≡ ok current
  pub written : r.file ≡ some (map c.encode (current ++ added))
  pub pending : r.queue.pending ≡ current ++ added
  pub admitted : IsAdmitted to_upper env.fresh 0 events added
  pub counted : (r.enqueued ≡ length added) × (r.enqueued + r.rejected ≡ length events)
  pub within : length (current ++ added) ≤ to_ℕ q.config.max_size

-- Nothing was queued: the file and the events in memory are as they were.
pub record IsRefused (q : Queue) (file : File) (r : Enqueued) : Type 0 where
  pub file_kept : r.file ≡ file
  pub pending_kept : r.queue.pending ≡ q.pending
  pub none_counted : r.enqueued ≡ 0

module _ (to_upper : String → String) (c : Codec) (env : EnqueueEnv) (q : Queue) (file : File)
    (events : List Event) where
  -- The error says which of the two it is.
  abbrev pub IsSettled : Enqueued → Type 0
  IsSettled r =
      ((r.error ≡ none) × IsQueued to_upper c env q file events r)
      ⊎ ((r.error ≡ none → ⊥) × IsRefused q file r)

  refused :
      (q' : Queue) (a : Admission) (x : QueueError)
      → q'.pending ≡ q.pending
      → IsSettled (not_enqueued to_upper c q' file a x)
  refused q' a x h =
      inr (λ e. cc, record { file_kept = refl; pending_kept = h; none_counted = refl })

  enqueue_onto-IsSettled :
      (q' : Queue) (current : List Event)
      → q'.pending ≡ q.pending
      → q'.config ≡ q.config
      → load_persisted_events c env.read file ≡ ok current
      → IsSettled (enqueue_onto to_upper c env q' file (admit to_upper env 0 events) current)
  unfolding enqueue_onto persist
  enqueue_onto-IsSettled q' current hp hc l =
      let a = admit to_upper env 0 events in
      elim (Bool-cases (ltb (to_ℕ q'.config.max_size) (length current + length a.valid))) [
        | inl full ↦ rw (full, enqueue_onto) (refused q' a _ hp)
        | inr fits ↦ elim (Bool-cases q'.closed) [
          | inl shut ↦ simp (fits, shut) (refused q' a _ hp)
          | inr open_ ↦ elim (Option-cases env.write) [
            | inr (f, w) ↦ simp (fits, open_, w) (refused q' a _ hp)
            | inl w ↦
                simp (fits, open_, w)
                  (inl (
                    refl,
                    record {
                      current = current;
                      added = a.valid;
                      loaded = l;
                      written = refl;
                      pending = refl;
                      admitted = admit-IsAdmitted to_upper env 0 events;
                      counted = (refl, admit_counts to_upper env 0 events);
                      within = rw (← hc) (ground (arith, length-append current a.valid));
                    },
                  ))
          ]
        ]
      ]

-- Enqueue either reports no error, and then all valid events of the batch, in order and with a new
-- delivery ID where an export has none, stand behind those on disk, in memory and in the file, the limit is kept
-- and every event is counted once as enqueued or rejected; or it reports an error, and then the file
-- and the events in memory are unchanged and none is counted as enqueued.
pub enqueue-IsSettled :
    (to_upper : String → String) (c : Codec) (env : EnqueueEnv) (q : Queue) (file : File)
    (events : List Event)
    → IsSettled to_upper c env q file events (enqueue to_upper c env q file events)
unfolding enqueue
enqueue-IsSettled to_upper c env q file events =
    let no = refused to_upper c env q file events in
    let a = admit to_upper env 0 events in
    let nothing : Admission = record { valid = []; rejected = 0; dead_lettered = [] } in
    elim (Bool-cases q.closed) [
      | inl shut ↦ simp shut (no q nothing _ refl)
      | inr open_ ↦ elim (Option-cases env.lock) [
        | inr (f, locked) ↦ simp (open_, locked) (no _ a _ refl)
        | inl locked ↦ elim (Result-cases (load_persisted_events c env.read file)) [
          | inr (x, l) ↦ simp (open_, locked, l) (no _ a _ refl)
          | inl (current, l) ↦
              simp (open_, locked, l)
                (enqueue_onto-IsSettled to_upper c env q file events _ current refl refl l)
        ]
      ]
    ]
