-- ===== src/Siem/Examples/Delivery.antt =====
-- Examples for the delivery queue and its persist file.
use basecheck_agent.Prelude.{
  ℕ, suc, ◌≡◌, refl, pos, none, some, List, [], ◌∷◌, ◌++◌, map, ok, err, arith, length, eq_iff,
}
use basecheck_agent.Siem.Fault.{deadline_exceeded, failed, webhook_send}
use basecheck_agent.Siem.Queue.Store.{
  Codec, File, load_persisted_events, persist, scan_events, token_too_long, max_scan_token_size,
}
use basecheck_agent.Siem.Queue.Open.{moved, new_queue}
use basecheck_agent.Siem.Queue.Open.Laws.{holding, calm, new_queue-enqueue, new_queue-oversized}
use basecheck_agent.Siem.Event.Validation.{validate}
use basecheck_agent.Siem.Queue.Deliver.{Delivery, Outcome, deliver_with_retry}
use basecheck_agent.Siem.Queue.Deliver.Conserve.{Returns}
use basecheck_agent.Siem.Queue.Deliver.Laws.{
  IsAccounted, deliver_with_retry-IsAccounted, deliver_with_retry-recovers,
}
use basecheck_agent.Siem.Queue.Enqueue.{enqueue, enqueue_onto, admit, assign_delivery_id}
use basecheck_agent.Siem.Queue.Enqueue.Laws.{IsQueued, IsSettled, enqueue-IsSettled}
use basecheck_agent.Siem.Queue.Flush.{Flushed, flush, delivery_id_of, is_excluded}
use basecheck_agent.Siem.Queue.Flush.Laws.{IsFlushed, flush-IsFlushed}
use basecheck_agent.Siem.Samples.{
  first_event, second_event, codec, delivery, transient, queue, enqueue_env, flush_env,
}

new_queue-enqueue_example :
    (let r = enqueue (λ s. s) codec enqueue_env queue none (first_event ∷ []) in
      (added : IsQueued (λ s. s) codec enqueue_env queue none (first_event ∷ []) r) × ((new_queue
          codec calm queue.config r.file).result
        ≡ ok (holding queue.config (added.current ++ added.added))))
unfolding enqueue load_persisted_events admit enqueue_onto persist validate assign_delivery_id
new_queue-enqueue_example =
    new_queue-enqueue (λ s. s) codec enqueue_env queue none (first_event ∷ []) queue.config refl
      ((refl, omega arith), tt)

-- A line of 64 KB of zeros.
zeros : ℕ → List ℕ
zeros ℕ.zero = []
zeros (suc n) = 0 ∷ zeros n

length-zeros : (n : ℕ) → length (zeros n) ≡ n
unfolding zeros
length-zeros ℕ.zero = refl
length-zeros (suc n) = omega (arith, length-zeros n)

abbrev wide : Codec
wide = record { encode = λ _. zeros max_scan_token_size; decode = λ _. some first_event }

new_queue-oversized_example :
    (let (written, fault) = persist wide none (first_event ∷ []) none in
      let next = new_queue wide calm queue.config written in
      (fault ≡ none)
      × ((next.result ≡ err (moved token_too_long))
          × ((next.corrupt ≡ written)
              × ((new_queue wide calm queue.config next.file).result
                  ≡ ok (holding queue.config [])))))
new_queue-oversized_example =
    new_queue-oversized wide [] first_event [] none queue.config tt
      (omega (arith, length-zeros max_scan_token_size))

deliver_with_retry-IsAccounted_example :
    Returns
      (IsAccounted delivery 5 (first_event ∷ []))
      (deliver_with_retry delivery 5 (pos 1 ∷ []) (first_event ∷ []))
deliver_with_retry-IsAccounted_example =
    deliver_with_retry-IsAccounted delivery 5 (pos 1 ∷ []) (first_event ∷ []) (omega arith)

deliver_with_retry-recovers_example :
    (o : Outcome) × (deliver_with_retry delivery 5 (pos 1 ∷ []) (first_event ∷ []) ≡ some o)
    × (o.delivered ≡ first_event ∷ [])
    × (o.sends ≡ 2)
    × (o.error ≡ none)
deliver_with_retry-recovers_example =
    deliver_with_retry-recovers delivery 5 (pos 1 ∷ []) first_event [] 1 (omega arith) (omega arith)
      (refl, (transient, refl, (refl, refl, refl)), refl, refl) refl

abbrev slow : Delivery
slow = record delivery { send = λ _. webhook_send 1 none none (failed deadline_exceeded) }

enqueue-IsSettled_example :
    IsSettled
      (λ s. s)
      codec
      enqueue_env
      queue
      none
      (first_event ∷ [])
      (enqueue (λ s. s) codec enqueue_env queue none (first_event ∷ []))
enqueue-IsSettled_example =
    enqueue-IsSettled (λ s. s) codec enqueue_env queue none (first_event ∷ [])

-- While the first event is delivered, another process adds the second one.
abbrev meanwhile : File → File
meanwhile _ = some (map codec.encode (first_event ∷ second_event ∷ []))

flush-IsFlushed_example :
    (r : Flushed) × (flush codec flush_env queue
        (some (map codec.encode (first_event ∷ [])))
        meanwhile
      ≡ some r)
    × IsFlushed codec flush_env (first_event ∷ []) (second_event ∷ []) (meanwhile none) r
unfolding load_persisted_events scan_events delivery_id_of is_excluded
flush-IsFlushed_example =
    flush-IsFlushed codec flush_env queue (some (map codec.encode (first_event ∷ []))) meanwhile
      (first_event ∷ []) (second_event ∷ []) (omega arith) refl refl (("id-1", refl), tt)
      ((λ id e. ground (arith, eq_iff "id-1" id, eq_iff "id-1" "id-2")), tt)
