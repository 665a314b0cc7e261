-- ===== src/Sqs/Request/Batch.antt =====
-- sqs/request.rs: the entries of batch requests and the names of `GetQueueAttributes`, from the
-- JSON text that the JSON protocol keeps, or from numbered parameters.
use lclq.Common.{ℕ, ◌^◌, ◌-◌, ◌%◌, String, List, [], ◌∷◌, Option, none, some}
use lclq.Common.Decimal.{parse_unsigned}
use lclq.Common.Numbered.{collect}
use lclq.Common.Text.{◌<>◌, to_string}
use lclq.Sqs.Json.{SerdeJson, Value, as_array, as_str, as_u64, index, texts}
use lclq.Sqs.Request.{SqsRequest, get_param, both, fuel}

pub record SendMessageBatchEntry : Type 0 where
  pub id : String
  pub message_body : String
  pub delay_seconds : Option ℕ
  pub message_deduplication_id : Option String
  pub message_group_id : Option String

pub record DeleteMessageBatchEntry : Type 0 where
  pub id : String
  pub receipt_handle : String

pub record ChangeVisibilityBatchEntry : Type 0 where
  pub id : String
  pub receipt_handle : String
  pub visibility_timeout : ℕ

abbrev pub max_u32 : ℕ
max_u32 = 2 ^ 32 - 1

-- `as u32`.
abbrev pub as_u32 : ℕ → ℕ
as_u32 n = n % 2 ^ 32

abbrev map_u32 : Option ℕ → Option ℕ
map_u32 none = none
map_u32 (some n) = some (as_u32 n)

-- The array that a parameter holds as JSON text.
json_array : SerdeJson → Option String → Option (List Value)
json_array serde none = none
json_array serde (some text) = elim (serde.from_str text) [
  | none ↦ none
  | some value ↦ as_array value
]

-- The items that have the fields of an entry.
abbrev pub keep_some {ℓ κ} : {A : Type ℓ} {B : Type κ} → (A → Option B) → List A → List B
keep_some f [] = []
keep_some f (a ∷ rest) = elim (f a) [ none ↦ keep_some f rest | some b ↦ b ∷ keep_some f rest ]

abbrev flatten {ℓ} : {A : Type ℓ} → List (Option A) → List A
flatten [] = []
flatten (none ∷ rest) = flatten rest
flatten (some a ∷ rest) = a ∷ flatten rest

-- A numbered parameter of an entry.
abbrev pub entry_param : SqsRequest → (entry : String) → ℕ → (field : String) → Option String
unfolding get_param
entry_param request entry i field = get_param request (entry <> to_string i <> field)

module _ (serde : SerdeJson) where
  unfoldable pub parse_attribute_names : SqsRequest → List String
  unfolding json_array
  parse_attribute_names request = elim (json_array serde (get_param request "AttributeNames")) [
    | some values ↦ texts values
    | none ↦ collect (λ i. get_param request ("AttributeName." <> to_string i)) (fuel request) 1
  ]

  json_send_entry : Value → Option SendMessageBatchEntry
  json_send_entry entry =
      elim (both (as_str (index entry "Id")) (as_str (index entry "MessageBody"))) [
        | none ↦ none
        | some (i, body) ↦ some (record {
          id = i;
          message_body = body;
          delay_seconds = map_u32 (as_u64 (index entry "DelaySeconds"));
          message_deduplication_id = as_str (index entry "MessageDeduplicationId");
          message_group_id = as_str (index entry "MessageGroupId");
        })
      ]

  parsed_u32 : Option String → Option ℕ
  parsed_u32 none = none
  parsed_u32 (some text) = parse_unsigned max_u32 text

  form_send_entry : SqsRequest → ℕ → Option SendMessageBatchEntry
  unfolding parsed_u32
  form_send_entry request i =
      let param = entry_param request "SendMessageBatchRequestEntry." i in
      elim (both (param ".Id") (param ".MessageBody")) [
        | none ↦ none
        | some (name, body) ↦ some (record {
          id = name;
          message_body = body;
          delay_seconds = parsed_u32 (param ".DelaySeconds");
          message_deduplication_id = param ".MessageDeduplicationId";
          message_group_id = param ".MessageGroupId";
        })
      ]

  unfoldable pub parse_send_message_batch_entries : SqsRequest → List SendMessageBatchEntry
  unfolding json_array json_send_entry form_send_entry
  parse_send_message_batch_entries request = elim (json_array serde (get_param request "Entries")) [
    | some values ↦ keep_some json_send_entry values
    | none ↦ collect (form_send_entry request) (fuel request) 1
  ]

  abbrev delete_entry : Option (String × String) → Option DeleteMessageBatchEntry
  delete_entry none = none
  delete_entry (some (i, handle)) = some (record { id = i; receipt_handle = handle })

  unfoldable pub parse_delete_message_batch_entries : SqsRequest → List DeleteMessageBatchEntry
  unfolding json_array
  parse_delete_message_batch_entries request =
      elim (json_array serde (get_param request "Entries")) [
        | some values ↦
            keep_some
              (λ entry.
                delete_entry
                  (both (as_str (index entry "Id")) (as_str (index entry "ReceiptHandle"))))
              values
        | none ↦
            collect
              (λ i.
                let param = entry_param request "DeleteMessageBatchRequestEntry." i in
                delete_entry (both (param ".Id") (param ".ReceiptHandle")))
              (fuel request) 1
      ]

  change_entry : Option (String × String) → Option ℕ → Option ChangeVisibilityBatchEntry
  change_entry (some (i, handle)) (some timeout) =
      some (record { id = i; receipt_handle = handle; visibility_timeout = timeout })
  change_entry _ _ = none

  -- An entry whose timeout is no number of 32 bits is skipped, and the loop goes on.
  numbered_change :
      Option (String × String) → Option String → Option (Option ChangeVisibilityBatchEntry)
  unfolding change_entry
  numbered_change (some found) (some text) =
      some (change_entry (some found) (parse_unsigned max_u32 text))
  numbered_change _ _ = none

  unfoldable pub parse_change_visibility_batch_entries :
      SqsRequest → List ChangeVisibilityBatchEntry
  unfolding json_array change_entry numbered_change
  parse_change_visibility_batch_entries request =
      elim (json_array serde (get_param request "Entries")) [
        | some values ↦
            keep_some
              (λ entry.
                change_entry
                  (both (as_str (index entry "Id")) (as_str (index entry "ReceiptHandle")))
                  (map_u32 (as_u64 (index entry "VisibilityTimeout"))))
              values
        | none ↦ flatten (
            collect
              (λ i.
                let param = entry_param request "ChangeMessageVisibilityBatchRequestEntry." i in
                numbered_change (both (param ".Id") (param ".ReceiptHandle"))
                  (param ".VisibilityTimeout"))
              (fuel request) 1)
      ]
