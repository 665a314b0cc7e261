-- ===== src/PubSub/Subscriber/Stream.antt =====
-- pubsub/subscriber.rs: the task of `StreamingPull` as two steps, one for a request of the client
-- and one for the poll behind a sleep. A step gives what is sent to the client, whether the loop goes
-- on, and the next states of the loop and of the backend.
use lclq.Common.{
  ◌⊎◌, inl, inr, ℕ, suc, ◌^◌, String, Bool, true, false, ◌&&◌, List, [], ◌∷◌, map, Option, none,
  some, ltb, get_elem?, if◌then◌else◌, unwrap_or,
}
use lclq.Common.Text.{◌<>◌}
use lclq.Error.{Result, ok, err}
use lclq.Error.Display.{error_text}
use lclq.PubSub.Names.{ResourceName, parse}
use lclq.PubSub.Proto.{Status, invalid_argument, not_found, as_u32, ReceivedMessage}
use lclq.PubSub.Publisher.{backend_id}
use lclq.PubSub.Subscriber.{streamed}
use lclq.Storage
use lclq.Storage.{StorageBackend}
use lclq.Types.{ReceiveOptions, SubscriptionConfig}

-- The variables of the loop. The subscription and its topic are set together.
pub record StreamState : Type 0 where
  pub subscription : Option (String × String)
  pub ack_deadline : ℕ
  pub message_ordering_enabled : Bool

abbrev pub new_stream : StreamState
new_stream = record { subscription = none; ack_deadline = 10; message_ordering_enabled = false }

pub record StreamingPullRequest : Type 0 where
  pub subscription : String
  pub stream_ack_deadline_seconds : ℕ
  pub ack_ids : List String
  pub modify_deadline_ack_ids : List String
  pub modify_deadline_seconds : List ℕ

pub data Sent : Type 0 where
  nothing : Sent
  messages : List ReceivedMessage → (message_ordering_enabled : Bool) → Sent
  failure : Status → Sent

-- A 32-bit pattern of a number over 0.
abbrev is_positive : ℕ → Bool
is_positive n = ltb 0 n && ltb n (2 ^ 31)

module _ {State : Type 0} (backend : StorageBackend State)
    (decode_base64 : String → Option (List ℕ)) where
  -- The first request names the subscription; none where the loop ends.
  initialized :
      StreamingPullRequest
      → StreamState
      → (sub_id : String) → Result SubscriptionConfig
      → Status ⊎ StreamState
  initialized req stream sub_id (ok config) = inr (record {
    subscription = some (sub_id, config.topic_id);
    ack_deadline =
        if is_positive req.stream_ack_deadline_seconds
        then as_u32 req.stream_ack_deadline_seconds
        else stream.ack_deadline;
    message_ordering_enabled = config.enable_message_ordering;
  })
  initialized req stream sub_id (err e) =
      inl (record { code = not_found; message = "Subscription not found: " <> error_text e })

  named : StreamingPullRequest → StreamState → State → Result ResourceName → Status ⊎ StreamState
  unfolding initialized
  named req stream s (ok name) =
      initialized req stream (backend_id name) (backend.get_subscription s (backend_id name))
  named req stream s (err e) =
      inl (record {
        code = invalid_argument;
        message = "Invalid subscription name: " <> error_text e;
      })

  initialize :
      StreamingPullRequest → StreamState → State → Option (String × String) → Status ⊎ StreamState
  unfolding named
  initialize req stream s (some known) = inr stream
  initialize req stream s none = named req stream s (parse req.subscription)

  -- Errors of single acknowledgements and of single changes are passed over.
  acknowledge_all : (sub_id : String) → List String → State → State
  acknowledge_all sub_id [] s = s
  acknowledge_all sub_id (ack_id ∷ ack_ids) s =
      acknowledge_all sub_id ack_ids ((backend.delete_message s sub_id ack_id).1)

  modify_all : (sub_id : String) → ℕ → (deadlines : List ℕ) → List String → State → State
  modify_all sub_id i deadlines [] s = s
  modify_all sub_id i deadlines (ack_id ∷ ack_ids) s =
      let deadline = unwrap_or (get_elem? deadlines i) 10 in
      modify_all sub_id (suc i) deadlines ack_ids
        ((backend.change_visibility s sub_id ack_id (as_u32 deadline)).1)

  apply_request : StreamingPullRequest → Option (String × String) → State → State
  unfolding acknowledge_all modify_all
  apply_request req none s = s
  apply_request req (some (sub_id, topic)) s =
      modify_all sub_id 0 req.modify_deadline_seconds req.modify_deadline_ack_ids
        (acknowledge_all sub_id req.ack_ids s)

  requested :
      StreamingPullRequest
      → StreamState
      → State
      → Status ⊎ StreamState
      → Sent × (Bool × (StreamState × State))
  unfolding apply_request
  requested req stream s (inl e) = (failure e, (false, (stream, s)))
  requested req stream s (inr next) =
      (nothing, (true, (next, apply_request req next.subscription s)))

  unfoldable pub on_request :
      StreamingPullRequest → StreamState → State → Sent × (Bool × (StreamState × State))
  unfolding requested initialize
  on_request req stream s = requested req stream s (initialize req stream s stream.subscription)

  unfoldable pub stream_options : StreamState → ReceiveOptions
  stream_options stream = record {
    max_messages = 10;
    visibility_timeout = some stream.ack_deadline;
    wait_time_seconds = 0;
    attribute_names = [];
    message_attribute_names = [];
  }

  -- `connected` says whether the client still takes what is sent.
  polled :
      (connected : Bool)
      → StreamState
      → Result (List Storage.ReceivedMessage) × State
      → Sent × (Bool × (StreamState × State))
  polled connected stream (err e, s) = (nothing, (true, (stream, s)))
  polled connected stream (ok [], s) = (nothing, (true, (stream, s)))
  polled connected stream (ok (m ∷ ms), s) = (
    messages (map (streamed decode_base64) (m ∷ ms)) stream.message_ordering_enabled,
    (connected, (stream, s)),
  )

  poll :
      (connected : Bool)
      → StreamState
      → Option (String × String)
      → State
      → Sent × (Bool × (StreamState × State))
  unfolding polled
  poll connected stream none s = (nothing, (true, (stream, s)))
  poll connected stream (some (sub_id, topic)) s =
      polled connected stream (backend.receive_messages s sub_id (stream_options stream))

  unfoldable pub on_poll :
      (connected : Bool) → StreamState → State → Sent × (Bool × (StreamState × State))
  unfolding poll
  on_poll connected stream s = poll connected stream stream.subscription s
