-- ===== src/Dlq.antt =====
-- core/dlq.rs: the handler of dead letter queues, a client of a storage backend.
use lclq.Common.{
  ℕ, ◌+◌, ◌-◌, ◌/◌, ◌%◌, String, Bool, true, false, Option, none, some, leb, if◌then◌else◌,
}
use lclq.Common.Word.{u64_mod}
use lclq.Error.{Result, ok, err, ◌>>=◌}
use lclq.Types.{DateTime, Message, DlqConfig, QueueConfig}
use lclq.Storage.{StorageBackend}

pub record DlqStats : Type 0 where
  pub message_count : ℕ
  pub oldest_message_age_seconds : Option ℕ

unfoldable pub should_move_to_dlq : Message → QueueConfig → Bool
should_move_to_dlq message queue_config = elim queue_config.dlq_config [
  | none ↦ false
  | some dlq_config ↦ leb dlq_config.max_receive_count message.receive_count
]

-- `(now - timestamp).num_seconds() as u64`: whole seconds, rounded towards zero; of a time in the
-- future the cast makes a number near the end of the `u64`.
abbrev pub age_seconds : (now : DateTime) → DateTime → ℕ
age_seconds now timestamp =
    if leb timestamp now
    then (now - timestamp) / 1000000000
    else (u64_mod - (timestamp - now) / 1000000000) % u64_mod

module _ {State : Type 0} (backend : StorageBackend State) where
  -- The answer of a step that forgets the message that was sent.
  sent : Result Message × State → Result (Unit {0}) × State
  sent (ok _, state) = (ok tt, state)
  sent (err e, state) = (err e, state)

  unfoldable pub move_to_dlq : State → Message → DlqConfig → Result (Unit {0}) × State
  unfolding sent
  move_to_dlq state message dlq_config =
      sent (backend.send_message state dlq_config.target_queue_id message)

  moved : Result (Unit {0}) × State → Result Bool × State
  moved (ok _, state) = (ok true, state)
  moved (err e, state) = (err e, state)

  unfoldable pub process_message : State → Message → QueueConfig → Result Bool × State
  unfolding moved move_to_dlq
  process_message state message queue_config = elim queue_config.dlq_config [
    | none ↦ (ok false, state)
    | some dlq_config ↦
        if should_move_to_dlq message queue_config
        then moved (move_to_dlq state message dlq_config)
        else (ok false, state)
  ]

  unfoldable pub get_dlq_stats : State → (dlq_id : String) → (now : DateTime) → Result DlqStats
  get_dlq_stats state dlq_id now = do
    stats ← backend.get_stats state dlq_id
    ok (record {
      message_count = (stats.available_messages + stats.in_flight_messages) % u64_mod;
      oldest_message_age_seconds = elim stats.oldest_message_timestamp [
        | none ↦ none
        | some ts ↦ some (age_seconds now ts)
      ];
    })
