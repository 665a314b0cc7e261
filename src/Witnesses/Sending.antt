-- ===== src/Witnesses/Sending.antt =====
-- The theorems on sending, eviction and reachable states at concrete inputs.
use lclq.Common.{◌≤◌, ◌<◌, ◌≡◌, refl, inl, List, [], ◌∷◌, none, length, suc, arith}
use lclq.Common.HashMap
use lclq.Error.{ok}
use lclq.Types.{Message, sqs_standard}
use lclq.Memory.State.{
  lru, InMemoryConfig, QueueData, InMemoryBackend, total_message_count, with_config,
}
use lclq.Memory.Invariant.{IsValid}
use lclq.Memory.Eviction.{maybe_evict}
use lclq.Memory.Eviction.Room.{maybe_evict_room}
use lclq.Memory.Send.{dedup_id_of, send_message_locked, send_message, send_messages, is_duplicate}
use lclq.Memory.Send.Dedup.{send_message_locked-at_most_once}
use lclq.Memory.Send.Interleaved.{
  SendStep, counts, evicts, stores, idle, run_sends, AllFindRoom, run_sends-le-max_messages,
}
use lclq.Memory.Send.Bound.{send_message-le-max_messages}
use lclq.Memory.Send.Counts.{total-send_messages}
use lclq.Memory.Reachable.{creates, sends, step, here, next, Reach-IsValid}
use lclq.Witnesses.Codec.{codec}
use lclq.Witnesses.Data.{
  config_of, message_of, events, dead, limit_of_three, backend, times, later_times, digest,
}

abbrev m : Message
m = message_of "m4" 0

-- The queue as a first send of that message leaves it.
abbrev events_after : QueueData
events_after = (send_message_locked digest events m times).1

send_message_locked-at_most_once_example :
    (length events_after.available_messages ≡ suc (length events.available_messages))
    × (send_message_locked digest events_after m later_times
        ≡ (ok m, record events_after { last_access = 200 }))
unfolding dedup_id_of is_duplicate HashMap.get
send_message_locked-at_most_once_example =
    send_message_locked-at_most_once digest events m times "hello" m later_times refl refl refl refl
      tt (omega arith) (omega arith)

-- Two senders and a backend that is full: the second one counts between the eviction and the store of
-- the first.
abbrev two_senders : List SendStep
two_senders = counts ∷ evicts ∷ counts ∷ stores "dead" m times ∷ stores "dead" m times ∷ []

backend-IsValid : IsValid backend
unfolding HashMap.get
backend-IsValid = record {
  queues_valid = (
    (refl, (refl, (refl, tt))),
    (
      record { own_id = refl; handles_unique = tt; dedup_ids_unique = tt },
      (
        record { own_id = refl; handles_unique = tt; dedup_ids_unique = tt },
        (record { own_id = refl; handles_unique = tt; dedup_ids_unique = tt }, tt),
      ),
    ),
  );
  subscriptions_unique = tt;
  subscription_ids = tt;
}

run_sends-le-max_messages_example :
    total_message_count (run_sends digest 2 (idle backend) two_senders).backend ≤ 4
unfolding AllFindRoom
run_sends-le-max_messages_example =
    run_sends-le-max_messages digest 1 backend two_senders backend-IsValid (omega arith)
      (tt, (inl (omega arith), (tt, (tt, (tt, tt)))))

send_message-le-max_messages_example :
    total_message_count (send_message digest backend "events" m times).1 ≤ 3
unfolding HashMap.get
send_message-le-max_messages_example =
    send_message-le-max_messages digest backend "events" m times (refl, (refl, (refl, tt)))
      (inl (omega arith)) (omega arith)

maybe_evict_room_example : total_message_count (maybe_evict backend).1 < 3
unfolding HashMap.get maybe_evict
maybe_evict_room_example =
    maybe_evict_room backend (refl, (refl, (refl, tt))) (inl (omega arith)) (omega arith) refl

-- A batch of three to a backend that has room for one message: it holds six in the end.
abbrev limit_of_four : InMemoryConfig
limit_of_four = record { max_messages = 4; eviction_policy = lru }

abbrev backend_of_four : InMemoryBackend
backend_of_four = record backend { config = limit_of_four }

total-send_messages_example :
    total_message_count
      (send_messages digest backend_of_four "dead"
        ((m, times) ∷ (m, times) ∷ (m, later_times) ∷ [])).1
    ≡ 6
unfolding HashMap.get maybe_evict
total-send_messages_example =
    total-send_messages digest backend_of_four "dead"
      ((m, times) ∷ (m, times) ∷ (m, later_times) ∷ []) dead refl refl (λ e. cc)

abbrev created : InMemoryBackend
created =
    step codec digest (with_config limit_of_three) (creates (config_of "dead" sqs_standard none) 1)

abbrev sent : InMemoryBackend
sent = step codec digest created (sends "dead" m times)

Reach-IsValid_example : IsValid sent
Reach-IsValid_example = Reach-IsValid codec digest (
    next sent (sends "dead" m times)
      (next created (creates (config_of "dead" sqs_standard none) 1) here refl) refl)
