-- ===== src/Memory/Receive/Expiry.antt =====
-- About the return of expired messages in storage/memory.rs, the loop that `receive_messages` and
-- `process_expired_visibility` share.
use mathlib.Core.List.{append-nil, append_assoc}
use lclq.Common.{
  suc, ◌+◌, String, ◌≡◌, refl, sym, ap, ◌∙◌, true, false, inl, inr, List, [], ◌∷◌, ◌++◌, none, some,
  length, leb, arith, if◌then◌else◌, Bool-cases,
}
use lclq.Common.HashMap
use lclq.Common.HashMap.{HashMap, HasUniqueKeys}
use lclq.Common.Entries.{get-append_entry, remove-append_entry, HasUniqueKeys-drop_entry}
use lclq.Types.{DateTime}
use lclq.Memory.State.{StoredMessage, InFlightMessage, QueueData}
use lclq.Memory.Receive.{expired_handles, requeue_one, requeue_all, count_requeued, requeue_expired}

-- The messages whose time is over, as they return to the queue, and the entries that stay.
abbrev pub returned : DateTime → HashMap InFlightMessage → List StoredMessage
returned now [] = []
returned now ((handle, m) ∷ rest) =
    if leb m.visibility_expires_at now
    then (record { message = m.message; visible_at = now }) ∷ returned now rest
    else returned now rest

abbrev pub still_in_flight : DateTime → HashMap InFlightMessage → HashMap InFlightMessage
still_in_flight now [] = []
still_in_flight now ((handle, m) ∷ rest) =
    if leb m.visibility_expires_at now
    then still_in_flight now rest
    else (handle, m) ∷ still_in_flight now rest

abbrev with_messages : QueueData → List StoredMessage → HashMap InFlightMessage → QueueData
with_messages q available in_flight = record q {
  available_messages = available;
  in_flight_messages = in_flight;
}

requeue_one_entry :
    (now : DateTime) (q : QueueData) (ms : List StoredMessage) (h : String) (x : InFlightMessage)
    (front back : HashMap InFlightMessage)
    → HasUniqueKeys (front ++ (h, x) ∷ back)
    → requeue_one now (with_messages q ms (front ++ (h, x) ∷ back)) h
      ≡ with_messages q
          (ms ++ (record { message = x.message; visible_at = now }) ∷ [])
          (front ++ back)
unfolding requeue_one
requeue_one_entry now q ms h x front back u =
    rw (get-append_entry h x front back u, remove-append_entry h x front back u, requeue_one) refl

-- The loop from any point on: `front` is what it has passed over.
abbrev Passes :
    DateTime
    → QueueData
    → List StoredMessage
    → HashMap InFlightMessage
    → HashMap InFlightMessage
    → Type 0
Passes now q ms front m =
    (requeue_all now (with_messages q ms (front ++ m)) (expired_handles now m)
      ≡ with_messages q (ms ++ returned now m) (front ++ still_in_flight now m))
    × (count_requeued now (with_messages q ms (front ++ m)) (expired_handles now m)
        ≡ length (returned now m))

module _ (now : DateTime) (h : String) (x : InFlightMessage) (m : HashMap InFlightMessage) where
  expired_handles-cons :
      leb x.visibility_expires_at now ≡ true
      → expired_handles now ((h, x) ∷ m) ≡ h ∷ expired_handles now m
  unfolding expired_handles
  expired_handles-cons e = rw e

  returned-cons :
      leb x.visibility_expires_at now ≡ true
      → returned now ((h, x) ∷ m)
        ≡ (record { message = x.message; visible_at = now }) ∷ returned now m
  returned-cons e = rw e

  still_in_flight-skip :
      leb x.visibility_expires_at now ≡ true
      → still_in_flight now m ≡ still_in_flight now ((h, x) ∷ m)
  still_in_flight-skip e = rw e

count_requeued-cons :
    (now : DateTime) (q : QueueData) (h : String) (x : InFlightMessage) (handles : List String)
    → HashMap.get h q.in_flight_messages ≡ some x
    → count_requeued now q (h ∷ handles) ≡ suc (count_requeued now (requeue_one now q h) handles)
unfolding count_requeued
count_requeued-cons now q h x handles e = ground arith

Passes-expired :
    (now : DateTime) (q : QueueData) (ms : List StoredMessage) (front m : HashMap InFlightMessage)
    (h : String) (x : InFlightMessage)
    → HasUniqueKeys (front ++ (h, x) ∷ m)
    → leb x.visibility_expires_at now ≡ true
    → Passes now q (ms ++ (record { message = x.message; visible_at = now }) ∷ []) front m
    → Passes now q ms front ((h, x) ∷ m)
unfolding requeue_all
Passes-expired now q ms front m h x u e (state, count) =
    let back : StoredMessage = record { message = x.message; visible_at = now } in
    let here = with_messages q ms (front ++ (h, x) ∷ m) in
    let handles = expired_handles-cons now h x m e in
    let step = requeue_one_entry now q ms h x front m u in
    (
      ap (requeue_all now here) handles
          ∙ ap (λ q'. requeue_all now q' (expired_handles now m)) step
          ∙ state
          ∙ λ i.
              with_messages q
                ((append_assoc ms (back ∷ []) (returned now m)
                    ∙ ap (◌++◌ ms) (sym (returned-cons now h x m e)))
                  i)
                (front ++ still_in_flight-skip now h x m e i),
      ap (count_requeued now here) handles
          ∙ count_requeued-cons now here h x (expired_handles now m)
              (get-append_entry h x front m u)
          ∙ ap (λ q'. suc (count_requeued now q' (expired_handles now m))) step
          ∙ ap suc count
          ∙ ap length (sym (returned-cons now h x m e)),
    )

Passes-live :
    (now : DateTime) (q : QueueData) (ms : List StoredMessage) (front m : HashMap InFlightMessage)
    (h : String) (x : InFlightMessage)
    → leb x.visibility_expires_at now ≡ false
    → Passes now q ms (front ++ (h, x) ∷ []) m
    → Passes now q ms front ((h, x) ∷ m)
unfolding expired_handles
Passes-live now q ms front m h x e p = rw e (
    rw
      (append_assoc front ((h, x) ∷ []) m, append_assoc front ((h, x) ∷ []) (still_in_flight now m))
      at p)

requeue_all-Passes :
    (now : DateTime) (q : QueueData) (ms : List StoredMessage) (front m : HashMap InFlightMessage)
    → HasUniqueKeys (front ++ m)
    → Passes now q ms front m
unfolding requeue_all expired_handles count_requeued
requeue_all-Passes now q ms front [] u = (rw (append-nil ms) refl, refl)
requeue_all-Passes now q ms front ((h, x) ∷ m) u =
    elim (Bool-cases (leb x.visibility_expires_at now)) [
      | inl e ↦
          Passes-expired now q ms front m h x u e
            (requeue_all-Passes now q _ front m (HasUniqueKeys-drop_entry h x front m u))
      | inr e ↦ Passes-live now q ms front m h x e (
          requeue_all-Passes now q ms (front ++ (h, x) ∷ []) m
            (rw (append_assoc front ((h, x) ∷ []) m) u))
    ]

-- Exactly the messages in flight whose time is over return to the end of the queue, in the order
-- of the map, the others stay in flight, and the number counted is theirs, if the handles are
-- unique.
pub requeue_expired_lem :
    (now : DateTime) (q : QueueData)
    → HasUniqueKeys q.in_flight_messages
    → (requeue_expired now q ≡ record q {
      available_messages = q.available_messages ++ returned now q.in_flight_messages;
      in_flight_messages = still_in_flight now q.in_flight_messages;
    })
      × (count_requeued now q (expired_handles now q.in_flight_messages)
          ≡ length (returned now q.in_flight_messages))
unfolding requeue_expired
requeue_expired_lem now q u =
    requeue_all-Passes now q q.available_messages [] q.in_flight_messages u

pub still_in_flight-get-none :
    (now : DateTime) (k : String) (m : HashMap InFlightMessage)
    → HashMap.get k m ≡ none
    → HashMap.get k (still_in_flight now m) ≡ none
unfolding HashMap.get
still_in_flight-get-none now k [] h = refl
still_in_flight-get-none now k ((j, x) ∷ m) h = ground (arith, still_in_flight-get-none now k m)

pub still_in_flight-HasUniqueKeys :
    (now : DateTime) (m : HashMap InFlightMessage)
    → HasUniqueKeys m
    → HasUniqueKeys (still_in_flight now m)
still_in_flight-HasUniqueKeys now [] u = tt
still_in_flight-HasUniqueKeys now ((j, x) ∷ m) u =
    ground (arith, still_in_flight-get-none now j m u.0, still_in_flight-HasUniqueKeys now m u.1)

pub length-returned-still :
    (now : DateTime) (m : HashMap InFlightMessage)
    → length (returned now m) + length (still_in_flight now m) ≡ length m
length-returned-still now [] = refl
length-returned-still now ((h, x) ∷ m) = ground (arith, length-returned-still now m)
