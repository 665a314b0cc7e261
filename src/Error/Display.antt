-- ===== src/Error/Display.antt =====
-- error/mod.rs: the texts of the errors (`Display`, which `to_string` uses).
use lclq.Common.{String}
use lclq.Common.Text.{◌<>◌, to_string}
use lclq.Error.{
  ValidationError, invalid_queue_name, invalid_topic_id, invalid_subscription_id, message_too_large,
  invalid_attribute, invalid_parameter, Error, config, validation, storage_error,
  queue_already_exists, not_implemented, queue_not_found, topic_not_found, subscription_not_found,
  message_not_found, invalid_receipt_handle, serialization, io, internal,
}

validation_text : ValidationError → String
validation_text (invalid_queue_name e) = "Invalid queue name: " <> e
validation_text (invalid_topic_id e) = "Invalid topic ID: " <> e
validation_text (invalid_subscription_id e) = "Invalid subscription ID: " <> e
validation_text (message_too_large size max) =
    "Message too large: " <> to_string size <> " bytes (max: " <> to_string max <> " bytes)"
validation_text (invalid_attribute e) = "Invalid attribute: " <> e
validation_text (invalid_parameter name reason) = "Invalid parameter " <> name <> ": " <> reason

unfoldable pub error_text : Error → String
unfolding validation_text
error_text (config e) = "Configuration error: " <> e
error_text (validation e) = "Validation error: " <> validation_text e
error_text (storage_error e) = "Storage error: " <> e
error_text (queue_already_exists e) = "Queue already exists: " <> e
error_text (not_implemented e) = "Not implemented: " <> e
error_text (queue_not_found e) = "Queue not found: " <> e
error_text (topic_not_found e) = "Topic not found: " <> e
error_text (subscription_not_found e) = "Subscription not found: " <> e
error_text (message_not_found e) = "Message not found: " <> e
error_text invalid_receipt_handle = "Invalid receipt handle"
error_text (serialization e) = "Serialization error: " <> e
error_text (io e) = "I/O error: " <> e
error_text (internal e) = "Internal error: " <> e
