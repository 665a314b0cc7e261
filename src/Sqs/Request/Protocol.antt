-- ===== src/Sqs/Request/Protocol.antt =====
-- sqs/request.rs: the choice of the protocol and the JSON protocol, whose members become
-- parameters. `header` stands for the text of a header, where it is given and visible ASCII.
use lclq.Common.{
  ℕ, suc, String, Bool, true, List, [], ◌∷◌, Option, none, some, str_eq, if◌then◌else◌,
}
use lclq.Common.Chars.{strip_suffix}
use lclq.Common.HashMap.{HashMap, get, insert}
use lclq.Common.Replace.{strip_prefix, starts_with}
use lclq.Common.Text.{◌<>◌, to_string}
use lclq.Common.Whitespace.{trim_start}
use lclq.Sqs.Json.{
  SerdeJson, Value, null, bool, number, string, array, object, items, entries, as_object, text_of,
}
use lclq.Sqs.Request.{SqsRequest, parse}
use lclq.Sqs.Types.{Attempt, success, failure, SqsAction, action_from_str}

-- `trim().starts_with('{')`: trimming the end does not touch the first character that is left.
looks_like_json : String → Bool
looks_like_json body = starts_with "{" (trim_start body)

module _ (serde : SerdeJson) where
  -- The members of `Attributes` become parameters of their own.
  flatten_members : HashMap Value → HashMap String → HashMap String
  flatten_members [] params = params
  flatten_members ((key, value) ∷ rest) params =
      flatten_members rest (insert key (text_of serde value) params)

  -- A text that is no JSON object has no members, and is passed over all the same.
  parsed_members : Option Value → HashMap Value
  parsed_members (some (object ms)) = entries ms
  parsed_members _ = []

  -- The match on the value of `Attributes`: none where it falls through.
  attributes_members : Value → Option (HashMap Value)
  unfolding parsed_members looks_like_json
  attributes_members (object ms) = some (entries ms)
  attributes_members (string s) =
      if looks_like_json s then some (parsed_members (serde.from_str s)) else none
  attributes_members _ = none

  insert_string : (key : String) → Option Value → HashMap String → HashMap String
  insert_string key (some (string s)) params = insert key s params
  insert_string key _ params = params

  insert_field : (index : ℕ) (field : String) → HashMap Value → HashMap String → HashMap String
  insert_field index field value params =
      insert_string ("MessageAttribute." <> to_string index <> ".Value." <> field) (get field value)
        params

  insert_value : (index : ℕ) → Option (HashMap Value) → HashMap String → HashMap String
  unfolding insert_field insert_string
  insert_value index none params = params
  insert_value index (some value) params =
      insert_field index "BinaryValue" value
        (insert_field index "StringValue" value (insert_field index "DataType" value params))

  -- `MessageAttributes` becomes numbered parameters.
  expand_attributes : (index : ℕ) → HashMap Value → HashMap String → HashMap String
  unfolding insert_value
  expand_attributes index [] params = params
  expand_attributes index ((name, value) ∷ rest) params = expand_attributes (suc index) rest (
      insert_value index (as_object value)
        (insert ("MessageAttribute." <> to_string index <> ".Name") name params))

  -- The name of an array without its trailing s.
  singular : String → String
  singular key = elim (strip_suffix "s" key) [ none ↦ key | some base ↦ base ]

  expand_array : (key : String) (index : ℕ) → List Value → HashMap String → HashMap String
  expand_array key index [] params = params
  expand_array key index (item ∷ rest) params =
      expand_array key (suc index) rest
        (insert (key <> "." <> to_string index) (text_of serde item) params)

  add_value : (key : String) → Value → HashMap String → HashMap String
  unfolding expand_array singular
  add_value key (string s) params = insert key s params
  add_value key (number n) params = insert key (serde.to_string (number n)) params
  add_value key (bool b) params = insert key (if b then "true" else "false") params
  add_value key (array vs) params =
      let expanded = expand_array (singular key) 1 (items vs) params in
      if str_eq key "Entries" then insert key (serde.to_string (array vs)) params else expanded
  add_value key (object ms) params = insert key (serde.to_string (object ms)) params
  add_value key null params = params

  add_message_attributes : (key : String) → Value → HashMap String → HashMap String
  unfolding expand_attributes add_value
  add_message_attributes key (object ms) params = expand_attributes 1 (entries ms) params
  add_message_attributes key value params = add_value key value params

  add_attributes : (key : String) → Value → HashMap String → HashMap String
  unfolding attributes_members flatten_members add_value
  add_attributes key value params = elim (attributes_members value) [
    | none ↦ add_value key value params
    | some members ↦ flatten_members members params
  ]

  unfoldable pub add_member : (key : String) → Value → HashMap String → HashMap String
  unfolding add_attributes add_message_attributes
  add_member key value params =
      if str_eq key "Attributes"
      then add_attributes key value params
      else if str_eq key "MessageAttributes"
      then add_message_attributes key value params
      else add_value key value params

  add_members : HashMap Value → HashMap String → HashMap String
  add_members [] params = params
  add_members ((key, value) ∷ rest) params = add_members rest (add_member key value params)

  json_params : Value → HashMap String
  unfolding add_members
  json_params (object ms) = add_members (entries ms) []
  json_params _ = []

  -- What follows the action: the body must be JSON. `json_error` is the text of the crate's error.
  json_request : (json_error : String) (body : String) → Attempt SqsAction → Attempt SqsRequest
  unfolding json_params
  json_request json_error body (failure e) = failure ("Unknown action: " <> e)
  json_request json_error body (success action) = elim (serde.from_str body) [
    | none ↦ failure ("Failed to parse JSON body: " <> json_error)
    | some json ↦ success (record { action = action; params = json_params json; is_json = true })
  ]

  unfoldable pub parse_json :
      (json_error : String) (body : String) (header : String → Option String) → Attempt SqsRequest
  unfolding json_request
  parse_json json_error body header = elim (header "x-amz-target") [
    | none ↦ failure "Missing X-Amz-Target header for JSON request"
    | some target ↦ elim (strip_prefix "AmazonSQS." target) [
      | none ↦ failure ("Invalid X-Amz-Target format: " <> target)
      | some action ↦ json_request json_error body (action_from_str action)
    ]
  ]

  unfoldable pub parse_with_headers :
      (url_decode : String → Option String) (json_error : String) (body : String)
      (header : String → Option String)
      → Attempt SqsRequest
  unfolding parse_json looks_like_json
  parse_with_headers url_decode json_error body header =
      if looks_like_json body then parse_json json_error body header else parse url_decode body
