-- ===== src/Sqs/Handler/Queues.antt =====
-- sqs/handler.rs: creating, finding, deleting, listing and purging queues.
pub mod Kept
use lclq.Common.{
  ℕ, String, Bool, true, false, ◌||◌, List, [], ◌∷◌, map, Option, none, some, str_eq, if◌then◌else◌,
  unwrap_or, is_some,
}
use lclq.Common.Chars.{strip_suffix}
use lclq.Common.HashMap.{HashMap, get}
use lclq.Common.Text.{◌<>◌}
use lclq.Error.{Result, ok, err}
use lclq.Error.Display.{error_text}
use lclq.Sqs.Handler.{
  Outside, Readings, parsed, refuse, required, queue_of_url, with_queue, get_queue_url,
}
use lclq.Sqs.Handler.Policies.{created_dlq_config, created_allow_policy}
use lclq.Sqs.Json.{SerdeJson, Value}
use lclq.Sqs.Request.{SqsRequest, get_param, parse_queue_attributes}
use lclq.Sqs.Response.{
  build_create_queue_response, build_get_queue_url_response, build_delete_message_response,
}
use lclq.Sqs.Response.Lists.{build_list_queues_response}
use lclq.Sqs.Types.{queue_does_not_exist, invalid_parameter_value, internal_error}
use lclq.Storage.{StorageBackend, QueueFilter}
use lclq.Types.{DlqConfig, QueueConfig, sqs_standard, sqs_fifo, RedriveAllowPolicy}
use lclq.Validation.{validate_sqs_queue_name, sqs_max_message_size}

-- `map(|v| v == "true").unwrap_or(false)`.
is_true : Option String → Bool
is_true none = false
is_true (some v) = str_eq v "true"

unfoldable pub parsed_json : SerdeJson → Option String → Option Value
parsed_json serde none = none
parsed_json serde (some text) = serde.from_str text

unfoldable pub dlq_config_from : Option Value → Option DlqConfig
dlq_config_from none = none
dlq_config_from (some policy) = some (created_dlq_config policy)

allow_policy_from : Option Value → Option RedriveAllowPolicy
allow_policy_from none = none
allow_policy_from (some policy) = created_allow_policy policy

-- The configuration that `CreateQueue` asks the backend for.
unfoldable pub requested_config :
    SerdeJson → (queue_name : String) → (attributes : HashMap String) → QueueConfig
unfolding is_true parsed_json dlq_config_from allow_policy_from
requested_config serde queue_name attributes =
    let is_fifo =
      is_some (strip_suffix ".fifo" queue_name) || is_true (get "FifoQueue" attributes) in
    record {
      id = queue_name;
      name = queue_name;
      queue_type = if is_fifo then sqs_fifo else sqs_standard;
      visibility_timeout = unwrap_or (parsed (get "VisibilityTimeout" attributes)) 30;
      message_retention_period =
          unwrap_or (parsed (get "MessageRetentionPeriod" attributes)) 345600;
      max_message_size = sqs_max_message_size;
      delay_seconds = unwrap_or (parsed (get "DelaySeconds" attributes)) 0;
      dlq_config = dlq_config_from (parsed_json serde (get "RedrivePolicy" attributes));
      content_based_deduplication = is_true (get "ContentBasedDeduplication" attributes);
      tags = [];
      redrive_allow_policy =
          allow_policy_from (parsed_json serde (get "RedriveAllowPolicy" attributes));
    }

module _ {State : Type 0} (backend : StorageBackend State) (outside : Outside) (readings : Readings)
    (base_url : String) where
  created : Result QueueConfig × State → String × State
  created (ok config, s) =
      (build_create_queue_response (get_queue_url base_url config.name) readings.request_id, s)
  created (err e, s) = refuse internal_error (error_text e) readings.request_id s

  create_named : SqsRequest → (queue_name : String) → State → Result (Unit {0}) → String × State
  unfolding created
  create_named request queue_name s (err e) =
      refuse invalid_parameter_value (error_text e) readings.request_id s
  create_named request queue_name s (ok _) = created (
      backend.create_queue s
        (requested_config outside.serde queue_name (parse_queue_attributes request)))

  unfoldable pub handle_create_queue : SqsRequest → State → String × State
  unfolding create_named
  handle_create_queue request s = required request readings.request_id "QueueName" s λ queue_name.
      create_named request queue_name s (validate_sqs_queue_name outside.is_alphanumeric queue_name)

  abbrev no_such_queue : (queue_name : String) → State → String × State
  no_such_queue queue_name s =
      refuse queue_does_not_exist ("Queue '" <> queue_name <> "' does not exist")
        readings.request_id s

  found_url : (queue_name : String) → State → Result QueueConfig → String × State
  found_url queue_name s (ok _) =
      (build_get_queue_url_response (get_queue_url base_url queue_name) readings.request_id, s)
  found_url queue_name s (err _) = no_such_queue queue_name s

  unfoldable pub handle_get_queue_url : SqsRequest → State → String × State
  unfolding found_url
  handle_get_queue_url request s =
      required request readings.request_id "QueueName" s
        λ queue_name. found_url queue_name s (backend.get_queue s queue_name)

  deleted : (queue_name : String) → Result (Unit {0}) × State → String × State
  deleted queue_name (ok _, s) = (build_delete_message_response readings.request_id, s)
  deleted queue_name (err _, s) = no_such_queue queue_name s

  unfoldable pub handle_delete_queue : SqsRequest → State → String × State
  unfolding deleted
  handle_delete_queue request s =
      with_queue request readings.request_id s
        λ queue_name. deleted queue_name (backend.delete_queue s queue_name)

  filter_of : Option String → Option QueueFilter
  filter_of none = none
  filter_of (some prefix) = some (record { name_prefix = some prefix })

  listed : State → Result (List QueueConfig) → String × State
  listed s (ok queues) = (
    build_list_queues_response (map (λ q. get_queue_url base_url q.name) queues)
        readings.request_id,
    s,
  )
  listed s (err e) = refuse internal_error (error_text e) readings.request_id s

  unfoldable pub handle_list_queues : SqsRequest → State → String × State
  unfolding filter_of listed
  handle_list_queues request s =
      listed s (backend.list_queues s (filter_of (get_param request "QueueNamePrefix")))

  purged : Result (Unit {0}) × State → String × State
  purged (ok _, s) = (build_delete_message_response readings.request_id, s)
  purged (err e, s) = refuse internal_error (error_text e) readings.request_id s

  unfoldable pub handle_purge_queue : SqsRequest → State → String × State
  unfolding purged
  handle_purge_queue request s =
      with_queue request readings.request_id s
        λ queue_name. purged (backend.purge_queue s queue_name)
