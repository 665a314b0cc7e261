-- ===== src/Sqs/Handler/Policies/RoundTrip.antt =====
-- About the redrive policies of sqs/handler.rs: what `GetQueueAttributes` writes, read back.
use lclq.Common.{◌<◌, ◌^◌, String, ◌≡◌, refl, ap, ◌∙◌, true, [], ◌∷◌, some, arith}
use lclq.Common.Split.{has_no_colon, split_colon, split_colon-part}
use lclq.Common.Replace.{append-push}
use lclq.Sqs.Handler.{Outside}
use lclq.Common.HashMap.{HashMap, get}
use lclq.Common.Text.{◌<>◌, to_string}
use lclq.Sqs.Handler.Attributes.{
  arn, redrive_policy_text, redrive_policy_rows, one_attribute, add_queue_attribute, add_named,
  add_attributes,
}
use lclq.Sqs.Handler.Queues.{parsed_json, dlq_config_from, requested_config}
use lclq.Sqs.Handler.Updates.{set_dlq, set_redrive_policy, set_other, set_attribute, set_attributes}
use lclq.Sqs.Types.{attribute_from_str, success}
use lclq.Sqs.Handler.Policies.{queue_of_arn, created_dlq_config, set_dlq_config, dlq_config_of}
use lclq.Sqs.Json.{SerdeJson, Value, number, string, object, member, no_members, unsigned, index}
use lclq.Sqs.Request.Batch.{as_u32}
use lclq.Types.{DateTime, DlqConfig, QueueConfig, QueueStats}

queue_of_arn-arn : (name : String) → has_no_colon name ≡ true → queue_of_arn (arn name) ≡ name
unfolding queue_of_arn split_colon
queue_of_arn-arn name h =
    rw (append-push "arn:aws:sqs:us-east-1:000000000000:" name)
      (rw (queue_of_arn, split_colon, split_colon-part name h) refl)

-- The value of the text that `redrive_policy_text` writes.
abbrev pub redrive_policy_value : DlqConfig → Value
redrive_policy_value dlq = object (
    member "deadLetterTargetArn" (string (arn dlq.target_queue_id))
      (member "maxReceiveCount" (number (unsigned dlq.max_receive_count)) no_members))

-- The text of such a value, as JSON has it.
abbrev pub redrive_policy_json : DlqConfig → String
redrive_policy_json dlq =
    "{\"deadLetterTargetArn\":\""
    <> arn dlq.target_queue_id
    <> "\",\"maxReceiveCount\":"
    <> to_string dlq.max_receive_count
    <> "}"

set_dlq_config-redrive_policy_value :
    (dlq : DlqConfig)
    → has_no_colon dlq.target_queue_id ≡ true
    → dlq.max_receive_count < 2 ^ 32
    → set_dlq_config (redrive_policy_value dlq) ≡ some dlq
unfolding set_dlq_config dlq_config_of index
set_dlq_config-redrive_policy_value dlq h small =
    let name = queue_of_arn-arn dlq.target_queue_id h in
    let count : as_u32 dlq.max_receive_count ≡ dlq.max_receive_count = omega (arith, small) in
    rw (name, count) refl

created_dlq_config-redrive_policy_value :
    (dlq : DlqConfig)
    → has_no_colon dlq.target_queue_id ≡ true
    → created_dlq_config (redrive_policy_value dlq)
      ≡ record { target_queue_id = dlq.target_queue_id; max_receive_count = 5 }
unfolding created_dlq_config index
created_dlq_config-redrive_policy_value dlq h = rw (queue_of_arn-arn dlq.target_queue_id h) refl

set_row :
    (outside : Outside) (text : String) (policy : Value) (dlq : DlqConfig) (other : QueueConfig)
    → (outside.serde).from_str text ≡ some policy
    → set_dlq_config policy ≡ some dlq
    → set_attributes outside (("RedrivePolicy", text) ∷ []) other
      ≡ success (record other { dlq_config = some dlq })
unfolding set_attributes set_attribute set_other set_redrive_policy set_dlq
set_row outside text policy dlq other parses reads =
    rw (parses, reads, set_attributes, set_attribute, set_other, set_redrive_policy, set_dlq) refl

create_row :
    (serde : SerdeJson) (name text : String) (policy : Value)
    → serde.from_str text ≡ some policy
    → (requested_config serde name (("RedrivePolicy", text) ∷ [])).dlq_config
      ≡ some (created_dlq_config policy)
unfolding requested_config parsed_json dlq_config_from get
create_row serde name text policy parses = rw parses refl

module _ (outside : Outside) (now : DateTime) (config : QueueConfig) (stats : QueueStats) where
  -- The rows that `GetQueueAttributes` answers for `RedrivePolicy`.
  abbrev pub answered_rows : HashMap String
  answered_rows = add_attributes now config stats ("RedrivePolicy" ∷ []) []

  rows :
      (dlq : DlqConfig)
      → config.dlq_config ≡ some dlq
      → answered_rows ≡ ("RedrivePolicy", redrive_policy_json dlq) ∷ []
  unfolding add_attributes add_named attribute_from_str add_queue_attribute one_attribute
      redrive_policy_rows redrive_policy_text
  rows dlq e = rw e refl

  -- If serde_json parses the text of the redrive policy that GetQueueAttributes writes for a
  -- target without a colon and a count that fits a u32 to the value that it spells,
  -- SetQueueAttributes accepts the written row and gives another queue the same dead letter
  -- configuration, while CreateQueue reads the limit 5 from it, whatever it was.
  pub redrive_policy_read_back :
      (dlq : DlqConfig) (other : QueueConfig) (name : String)
      → config.dlq_config ≡ some dlq
      → has_no_colon dlq.target_queue_id ≡ true
      → dlq.max_receive_count < 2 ^ 32
      → (outside.serde).from_str (redrive_policy_json dlq) ≡ some (redrive_policy_value dlq)
      → (set_attributes outside answered_rows other
          ≡ success (record other { dlq_config = some dlq }))
        × ((requested_config outside.serde name answered_rows).dlq_config
            ≡ some (record { target_queue_id = dlq.target_queue_id; max_receive_count = 5 }))
  redrive_policy_read_back dlq other name e h small parses =
      let text = redrive_policy_json dlq in
      let policy = redrive_policy_value dlq in
      (
        ap (λ r. set_attributes outside r other) (rows dlq e)
            ∙ set_row outside text policy dlq other parses
                (set_dlq_config-redrive_policy_value dlq h small),
        ap (λ r. (requested_config outside.serde name r).dlq_config) (rows dlq e)
            ∙ create_row outside.serde name text policy parses
            ∙ ap (λ d. some d) (created_dlq_config-redrive_policy_value dlq h),
      )
