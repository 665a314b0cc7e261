-- ===== src/Sqs/Request.antt =====
-- sqs/request.rs: the request, its form-encoded syntax and the parameters that every action reads.
-- `url_decode` stands for `decode` of the `urlencoding` crate, which fails on bytes that are not
-- UTF-8. The loops over numbered parameters have fuel for one parameter more than there are.
pub mod Protocol
pub mod Batch
pub mod Complete
use Prim.Native.Char.{Char}
use Prim.Native.String
use lclq.Common.{
  ℕ, suc, String, Bool, true, false, List, [], ◌∷◌, Option, none, some, length, str_eq,
  if◌then◌else◌, unwrap_or,
}
use lclq.Common.Text.{◌<>◌, to_string}
use lclq.Common.Chars.{is_char}
use lclq.Common.HashMap.{HashMap, get, insert}
use lclq.Common.Numbered.{collect}
use lclq.Common.Replace.{replace_char}
use lclq.Common.Split.{push_front}
use lclq.PubSub.Names.{split_slash}
use lclq.Sqs.Digest.{SqsMessageAttributeValue, SqsMessageAttributes}
use lclq.Sqs.Types.{Attempt, success, failure, SqsAction, action_from_str}

pub record SqsRequest : Type 0 where
  pub action : SqsAction
  pub params : HashMap String
  pub is_json : Bool

-- `split('&')`, and `split_once('=')` with the two texts around the first match.
split_ampersand : String → List String
split_ampersand String.[] = "" ∷ []
split_ampersand (String.◌∷◌ c s) =
    let rest = split_ampersand s in if is_char b'&' c then "" ∷ rest else push_front c rest

split_once : String → Option (String × String)
split_once String.[] = none
split_once (String.◌∷◌ c s) =
    let rest : Option (String × String) = elim (split_once s) [
      | none ↦ none
      | some (key, value) ↦ some (String.◌∷◌ c key, value)
    ] in
    if is_char b'=' c then some ("", s) else rest

insert_pair :
    (url_decode : String → Option String)
    → Option (String × String)
    → HashMap String
    → HashMap String
insert_pair url_decode none params = params
insert_pair url_decode (some (key, value)) params =
    insert (unwrap_or (url_decode key) "") (unwrap_or (url_decode (replace_char "+" " " value)) "")
      params

insert_pairs : (String → Option String) → List String → HashMap String → HashMap String
unfolding insert_pair split_once
insert_pairs url_decode [] params = params
insert_pairs url_decode (pair ∷ pairs) params =
    insert_pairs url_decode pairs (insert_pair url_decode (split_once pair) params)

unfoldable pub parse_form_data : (url_decode : String → Option String) → String → HashMap String
unfolding split_ampersand insert_pairs
parse_form_data url_decode body = insert_pairs url_decode (split_ampersand body) []

form_request : HashMap String → Attempt SqsAction → Attempt SqsRequest
form_request params (success action) =
    success (record { action = action; params = params; is_json = false })
form_request params (failure _) = failure "Missing or invalid Action parameter"

unfoldable pub parse : (url_decode : String → Option String) → String → Attempt SqsRequest
unfolding form_request
parse url_decode body =
    let params = parse_form_data url_decode body in
    elim (get "Action" params) [
      | none ↦ failure "Missing or invalid Action parameter"
      | some a ↦ form_request params (action_from_str a)
    ]

unfoldable pub get_param : SqsRequest → (key : String) → Option String
get_param request key = get key request.params

unfoldable pub get_required_param : SqsRequest → (key : String) → Attempt String
get_required_param request key = elim (get_param request key) [
  | none ↦ failure ("Missing required parameter: " <> key)
  | some value ↦ success value
]

-- The values of two parameters, where both are given.
abbrev pub both : Option String → Option String → Option (String × String)
both (some a) (some b) = some (a, b)
both _ _ = none

-- The fuel of a loop over numbered parameters.
abbrev pub fuel : SqsRequest → ℕ
fuel request = suc (length request.params)

abbrev pub attribute_key : (index : ℕ) (field : String) → String
attribute_key index field = "MessageAttribute." <> to_string index <> field

unfoldable pub message_attribute : SqsRequest → ℕ → Option (String × SqsMessageAttributeValue)
message_attribute request index =
    elim (both (get_param request (attribute_key index ".Name"))
      (get_param request (attribute_key index ".Value.DataType"))) [
        | none ↦ none
        | some (name, data_type) ↦ some (
          name,
          record {
            data_type = data_type;
            string_value = get_param request (attribute_key index ".Value.StringValue");
            binary_value = get_param request (attribute_key index ".Value.BinaryValue");
          },
        )
      ]

abbrev pub insert_all {ℓ} : {V : Type ℓ} → List (String × V) → HashMap V → HashMap V
unfolding insert
insert_all [] m = m
insert_all ((key, value) ∷ rest) m = insert_all rest (insert key value m)

unfoldable pub parse_message_attributes : SqsRequest → SqsMessageAttributes
unfolding message_attribute
parse_message_attributes request =
    insert_all (collect (message_attribute request) (fuel request) 1) []

abbrev known_attributes : List String
known_attributes =
    "FifoQueue" ∷ "ContentBasedDeduplication" ∷ "VisibilityTimeout" ∷ "MessageRetentionPeriod"
    ∷ "DelaySeconds" ∷ "MaximumMessageSize" ∷ "ReceiveMessageWaitTimeSeconds" ∷ "RedrivePolicy"
    ∷ "RedriveAllowPolicy" ∷ []

known : SqsRequest → List String → HashMap String → HashMap String
known request [] attributes = attributes
known request (name ∷ names) attributes = elim (get_param request name) [
  | none ↦ known request names attributes
  | some value ↦ known request names (insert name value attributes)
]

unfoldable pub queue_attribute : SqsRequest → ℕ → Option (String × String)
queue_attribute request index =
    both (get_param request ("Attribute." <> to_string index <> ".Name"))
      (get_param request ("Attribute." <> to_string index <> ".Value"))

unfoldable pub parse_queue_attributes : SqsRequest → HashMap String
unfolding known queue_attribute
parse_queue_attributes request =
    insert_all (collect (queue_attribute request) (fuel request) 1)
      (known request known_attributes [])

-- The last piece of `split('/')`, unless it is empty.
last_piece : List String → Option String
last_piece [] = none
last_piece (piece ∷ []) = if str_eq piece "" then none else some piece
last_piece (piece ∷ next ∷ pieces) = last_piece (next ∷ pieces)

unfoldable pub extract_queue_name_from_url : String → Option String
unfolding last_piece
extract_queue_name_from_url queue_url = last_piece (split_slash queue_url)
