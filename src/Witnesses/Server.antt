-- ===== src/Witnesses/Server.antt =====
-- The theorems on the SQS server at concrete inputs.
use mathlib.Core.List.{Perm, Permᴰ}
use lclq.Common.{ℕ, suc, ◌≡◌, refl, ◌⊎◌, false, ◌||◌, List, [], ◌∷◌, none, some, length, arith}
use lclq.Common.Bytes.{as_bytes}
use lclq.Common.Chars.{all_chars, is_ascii_alphabetic, is_ascii_digit}
use lclq.Common.HashMap
use lclq.Common.HashMap.{HashMap}
use lclq.Common.Numbered.{collect}
use lclq.Common.Text.{to_string}
use lclq.Memory.Backend.{BackendReadings, memory_backend}
use lclq.Memory.State.{InMemoryBackend}
use lclq.Sqs.Digest.{SqsMessageAttributes, calculate_md5_of_attributes}
use lclq.Sqs.Digest.Order.{calculate_md5_of_attributes-Perm}
use lclq.Sqs.Escape.{escape_xml, unescape_xml}
use lclq.Sqs.Escape.RoundTrip.{unescape_xml-escape_xml}
use lclq.Sqs.Handler.{Outside, Readings}
use lclq.Sqs.Handler.Attributes.{add_attributes}
use lclq.Sqs.Handler.Batches.{process, send_entry, delete_entry, change_entry}
use lclq.Sqs.Handler.Batches.Answers.{answered_ids, process-answers}
use lclq.Sqs.Handler.Dispatch.{answered, handle_request}
use lclq.Sqs.Handler.Dispatch.Refused.{handle_request-missing_queue}
use lclq.Sqs.Handler.Policies.RoundTrip.{
  redrive_policy_json, redrive_policy_value, answered_rows, redrive_policy_read_back,
}
use lclq.Sqs.Handler.Queues.{requested_config}
use lclq.Common.{str_eq, if◌then◌else◌}
use lclq.Sqs.Handler.Updates.{set_attributes, handle_set_queue_attributes}
use lclq.Sqs.Handler.Updates.AllOrNothing.{IsFullUpdate, handle_set_queue_attributes-all_or_nothing}
use lclq.Sqs.Handler.Updates.RoundTrip.{limited_names, set_attributes-add_attributes}
use lclq.Sqs.Json.{SerdeJson}
use lclq.Sqs.Request.{SqsRequest, get_param, fuel, message_attribute, queue_attribute}
use lclq.Sqs.Request.Batch.{
  SendMessageBatchEntry, DeleteMessageBatchEntry, ChangeVisibilityBatchEntry,
}
use lclq.Sqs.Request.Complete.{collect-stops_at_missing}
use lclq.Sqs.Response.{build_error_response}
use lclq.Sqs.Types
use lclq.Sqs.Types.{success, missing_parameter}
use lclq.Storage.{StorageBackend}
use lclq.Types.{QueueConfig, sqs_standard, QueueStats}
use lclq.Witnesses.Codec.{codec}
use lclq.Witnesses.Data
use lclq.Witnesses.Data.{config_of, to_dead, backend, times, digest}

abbrev serde : SerdeJson
serde = record { from_str = λ text. none; to_string = λ v. "" }

abbrev outside : Outside
outside = record {
  md5_hex = λ bytes. to_string (length bytes);
  decode_base64 = λ text. some (as_bytes text);
  is_alphanumeric = λ c. is_ascii_alphabetic c || is_ascii_digit c;
  to_lowercase = λ text. text;
  serde = serde;
}

abbrev request_readings : Readings
request_readings = record {
  request_id = "r-1";
  new_id = λ i. "new";
  now = λ i. 50;
  answered_at = 60;
}

abbrev call_readings : ℕ → BackendReadings
call_readings i = record {
  creating = 1;
  sending = λ k. times;
  receiving = Data.readings;
  changing = 100;
  expiring = 100;
}

abbrev memory : StorageBackend InMemoryBackend
memory = memory_backend codec digest (call_readings 0)

-- `SetQueueAttributes` with one attribute by its number.
abbrev set_request : SqsRequest
set_request = record {
  action = Types.set_queue_attributes;
  params =
      ("QueueUrl", "http://localhost:9324/queue/orders")
      ∷ ("Attribute.1.Name", "VisibilityTimeout")
      ∷ ("Attribute.1.Value", "45")
      ∷ [];
  is_json = false;
}

unescape_xml-escape_xml_example :
    unescape_xml (escape_xml "<a href=\"x\">R&D's</a> &lt;") ≡ "<a href=\"x\">R&D's</a> &lt;"
unescape_xml-escape_xml_example = unescape_xml-escape_xml "<a href=\"x\">R&D's</a> &lt;"

abbrev colour : SqsMessageAttributes
colour =
    ("Size", record { data_type = "Number"; string_value = some "12"; binary_value = none })
    ∷ ("Colour", record { data_type = "String"; string_value = some "red"; binary_value = none })
    ∷ []

abbrev colour_swapped : SqsMessageAttributes
colour_swapped =
    ("Colour", record { data_type = "String"; string_value = some "red"; binary_value = none })
    ∷ ("Size", record { data_type = "Number"; string_value = some "12"; binary_value = none })
    ∷ []

calculate_md5_of_attributes-Perm_example :
    calculate_md5_of_attributes outside.md5_hex outside.decode_base64 colour
    ≡ calculate_md5_of_attributes outside.md5_hex outside.decode_base64 colour_swapped
unfolding HashMap.get
calculate_md5_of_attributes-Perm_example =
    calculate_md5_of_attributes-Perm outside.md5_hex outside.decode_base64 colour colour_swapped
      (Permᴰ.swap refl refl) (refl, (refl, tt))

abbrev sends : List SendMessageBatchEntry
sends =
    record {
      id = "e1";
      message_body = "hello";
      delay_seconds = none;
      message_deduplication_id = none;
      message_group_id = none;
    }
    ∷ []

abbrev deletes : List DeleteMessageBatchEntry
deletes =
    record { id = "d1"; receipt_handle = "no handle" }
    ∷ record { id = "d2"; receipt_handle = "nor this" }
    ∷ []

abbrev changes : List ChangeVisibilityBatchEntry
changes = record { id = "c1"; receipt_handle = "no handle"; visibility_timeout = 43201 } ∷ []

process-answers_example :
    Perm
      (answered_ids
        (λ r. r.id)
        ((process (send_entry memory outside request_readings "orders") 0 sends backend).0))
      ("e1" ∷ [])
    × Perm
        (answered_ids
          (λ i. i)
          ((process (delete_entry memory outside request_readings "orders") 0 deletes backend).0))
        ("d1" ∷ "d2" ∷ [])
    × Perm
        (answered_ids
          (λ i. i)
          ((process (change_entry memory outside request_readings "orders") 0 changes backend).0))
        ("c1" ∷ [])
process-answers_example =
    process-answers memory outside request_readings "orders" backend sends deletes changes

handle_set_queue_attributes-all_or_nothing_example :
    ((handle_set_queue_attributes memory outside request_readings set_request backend).1 ≡ backend)
    ⊎ IsFullUpdate memory outside request_readings set_request backend
        ((handle_set_queue_attributes memory outside request_readings set_request backend).1)
handle_set_queue_attributes-all_or_nothing_example =
    handle_set_queue_attributes-all_or_nothing memory outside request_readings set_request backend

abbrev purge_request : SqsRequest
purge_request = record {
  action = Types.purge_queue;
  params = ("QueueUrl", "http://localhost:9324/queue/orders") ∷ [];
  is_json = false;
}

-- A request without its queue.
abbrev lost_request : SqsRequest
lost_request = record { action = Types.purge_queue; params = []; is_json = false }

handle_request-missing_queue_example :
    handle_request memory outside request_readings "http://localhost:9324" lost_request backend ≡ (
      answered "application/xml"
          (build_error_response missing_parameter "Missing required parameter: QueueUrl" "r-1"),
      backend,
    )
unfolding get_param HashMap.get
handle_request-missing_queue_example =
    handle_request-missing_queue memory outside request_readings "http://localhost:9324" "QueueUrl"
      lost_request backend refl refl refl

abbrev stats : QueueStats
stats = record {
  available_messages = 0;
  in_flight_messages = 0;
  dlq_messages = 0;
  oldest_message_timestamp = none;
}

abbrev first : QueueConfig
first = config_of "first" sqs_standard none

abbrev second : QueueConfig
second = record first { visibility_timeout = 5 }

set_attributes-add_attributes_example :
    set_attributes outside (add_attributes 9 first stats limited_names []) second ≡ success first
set_attributes-add_attributes_example =
    set_attributes-add_attributes outside 9 first second stats (record {
      visibility = omega arith;
      retention = (omega arith, omega arith);
      size = (omega arith, omega arith);
      delay = omega arith;
    })

-- A parser that knows one text.
abbrev policy_serde : SerdeJson
policy_serde = record serde {
  from_str = λ text.
      if str_eq text (redrive_policy_json to_dead)
      then some (redrive_policy_value to_dead)
      else none;
}

abbrev with_policy : Outside
with_policy = record outside { serde = policy_serde }

redrive_policy_read_back_example :
    (set_attributes with_policy
        (answered_rows with_policy 9 (config_of "orders" sqs_standard (some to_dead)) stats)
        second
      ≡ success (record second { dlq_config = some to_dead }))
    × ((requested_config policy_serde "copy" (
          answered_rows with_policy 9
            (config_of "orders" sqs_standard (some to_dead))
            stats)).dlq_config
        ≡ some (record { target_queue_id = "dead"; max_receive_count = 5 }))
unfolding all_chars to_string
redrive_policy_read_back_example =
    redrive_policy_read_back with_policy 9 (config_of "orders" sqs_standard (some to_dead)) stats
      to_dead second "copy" refl refl (omega arith) refl

collect-stops_at_missing_example :
    (message_attribute set_request
        (suc (length (collect (message_attribute set_request) (fuel set_request) 1)))
      ≡ none)
    × (queue_attribute set_request
          (suc (length (collect (queue_attribute set_request) (fuel set_request) 1)))
        ≡ none)
collect-stops_at_missing_example = collect-stops_at_missing set_request
