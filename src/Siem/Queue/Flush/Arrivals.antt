-- ===== src/Siem/Queue/Flush/Arrivals.antt =====
-- `eventsNotInDeliveryIDs` of pkg/siem/queue.go finds exactly what arrived during a flush.
use basecheck_agent.Prelude.{
  ◌≡◌, refl, ap, ◌∙◌, String, true, false, some, List, [], ◌∷◌, ◌++◌, arith, inl, inr, All,
  Option-cases, eq_iff,
}
use basecheck_agent.Siem.Event.{Event}
use basecheck_agent.Siem.Queue.Flush.{delivery_id_of, is_excluded, events_not_in_delivery_ids}

-- The event has a delivery ID.
abbrev pub HasId : Event → Type 0
HasId e = (id : String) × (delivery_id_of e ≡ some id)

-- The event has no delivery ID, or one that is not among those of the others.
abbrev pub IsNew : List Event → Event → Type 0
IsNew others e = (id : String) → delivery_id_of e ≡ some id → is_excluded id others ≡ false

abbrev IsKnown : List Event → Event → Type 0
IsKnown others e = (id : String) × (delivery_id_of e ≡ some id) × (is_excluded id others ≡ true)

known_skipped :
    (others es : List Event)
    → All (IsKnown others) es
    → (rest : List Event)
    → events_not_in_delivery_ids (es ++ rest) others ≡ events_not_in_delivery_ids rest others
unfolding events_not_in_delivery_ids
known_skipped others [] h rest = refl
known_skipped others (e ∷ es) ((id, has, known), h) rest =
    rw (has, known, events_not_in_delivery_ids) (known_skipped others es h rest)

new_kept :
    (others es : List Event) → All (IsNew others) es → events_not_in_delivery_ids es others ≡ es
unfolding events_not_in_delivery_ids
new_kept others [] h = refl
new_kept others (e ∷ es) (new, h) = elim (Option-cases (delivery_id_of e)) [
  | inl no_id ↦ rw (no_id, events_not_in_delivery_ids) (ap (λ r. e ∷ r) (new_kept others es h))
  | inr (id, has) ↦
      rw (has, new id has, events_not_in_delivery_ids) (ap (λ r. e ∷ r) (new_kept others es h))
]

IsKnown-further :
    (e : Event) (others es : List Event) → All (IsKnown others) es → All (IsKnown (e ∷ others)) es
unfolding is_excluded
IsKnown-further e others [] h = tt
IsKnown-further e others (x ∷ es) ((id, has, known), h) =
    ((id, has, ground arith), IsKnown-further e others es h)

batch-IsKnown : (es : List Event) → All HasId es → All (IsKnown es) es
unfolding is_excluded
batch-IsKnown [] h = tt
batch-IsKnown (e ∷ es) ((id, has), h) = (
  (id, has, simp has (ground (arith, eq_iff id id))),
  IsKnown-further e es es (batch-IsKnown es h),
)

-- If the batch has delivery IDs and nothing that arrived repeats one of them, then what is found
-- behind the batch is exactly what arrived, in order.
pub events_not_in_delivery_ids-append :
    (batch arrived : List Event)
    → All HasId batch
    → All (IsNew batch) arrived
    → events_not_in_delivery_ids (batch ++ arrived) batch ≡ arrived
events_not_in_delivery_ids-append batch arrived h k =
    known_skipped batch batch (batch-IsKnown batch h) arrived ∙ new_kept batch arrived k
