-- ===== src/Memory/InFlight/Valid.antt =====
-- About `delete_message` and `change_visibility` of storage/memory.rs and the well-formedness of the
-- backend.
use lclq.Common.{ℕ, String, inl, inr, str_eq, Bool-cases, Option-cases}
use lclq.Common.HashMap
use lclq.Common.HashMap.{insert-HasUniqueKeys, remove-HasUniqueKeys}
use lclq.Error.{Result, ok, err}
use lclq.Types.{DateTime}
use lclq.Receipt.{ReceiptHandleData, ReceiptCodec, parse_receipt_handle}
use lclq.Memory.State.{QueueData, InMemoryBackend}
use lclq.Memory.Invariant.{QueueIsValid, IsValid, on_queue-IsValid}
use lclq.Memory.InFlight.{
  with_handle, remove_in_flight, extend_in_flight, delete_message, change_visibility,
}

with_handle-IsValid :
    (b : InMemoryBackend) (id : String) (r : Result ReceiptHandleData)
    (f : QueueData → Result (Unit {0}) × QueueData)
    → IsValid b
    → ((q : QueueData) → QueueIsValid id q → QueueIsValid id (f q).1)
    → IsValid (with_handle b id r f).1
unfolding with_handle
with_handle-IsValid b id (err e) f v keep = v
with_handle-IsValid b id (ok d) f v keep = elim (Bool-cases (str_eq d.queue_id id)) [
  | inl e ↦ rw e (on_queue-IsValid b id f v keep)
  | inr e ↦ rw e v
]

remove_in_flight-IsValid :
    (id handle : String) (q : QueueData)
    → QueueIsValid id q
    → QueueIsValid id (remove_in_flight handle q).1
unfolding remove_in_flight
remove_in_flight-IsValid id handle q v =
    elim (Option-cases (HashMap.get handle q.in_flight_messages)) [
      | inl e ↦ rw (e, remove_in_flight) v
      | inr (x, e) ↦
          rw (e, remove_in_flight)
            (record {
              own_id = v.own_id;
              handles_unique = remove-HasUniqueKeys handle q.in_flight_messages v.handles_unique;
              dedup_ids_unique = v.dedup_ids_unique;
            })
    ]

extend_in_flight-IsValid :
    (id handle : String) (expires : DateTime) (q : QueueData)
    → QueueIsValid id q
    → QueueIsValid id (extend_in_flight handle expires q).1
unfolding extend_in_flight
extend_in_flight-IsValid id handle expires q v =
    elim (Option-cases (HashMap.get handle q.in_flight_messages)) [
      | inl e ↦ rw (e, extend_in_flight) v
      | inr (x, e) ↦
          rw (e, extend_in_flight)
            (record {
              own_id = v.own_id;
              handles_unique =
                  insert-HasUniqueKeys handle (record x { visibility_expires_at = expires })
                    q.in_flight_messages v.handles_unique;
              dedup_ids_unique = v.dedup_ids_unique;
            })
    ]

module _ (codec : ReceiptCodec) (b : InMemoryBackend) (id handle : String) where
  pub delete_message-IsValid : IsValid b → IsValid (delete_message codec b id handle).1
  unfolding delete_message
  delete_message-IsValid v =
      with_handle-IsValid b id (parse_receipt_handle codec handle) _ v
        (remove_in_flight-IsValid id handle)

  pub change_visibility-IsValid :
      (timeout : ℕ) (now : DateTime)
      → IsValid b
      → IsValid (change_visibility codec b id handle timeout now).1
  unfolding change_visibility
  change_visibility-IsValid timeout now v =
      with_handle-IsValid b id (parse_receipt_handle codec handle) _ v
        (extend_in_flight-IsValid id handle _)
