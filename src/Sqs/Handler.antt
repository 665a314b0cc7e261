-- ===== src/Sqs/Handler.antt =====
-- sqs/handler.rs: what all actions share. A handler takes the request and the state of the backend
-- and gives the response and the next state. `Outside` holds the code that is not the program's,
-- `Readings` what one request reads from outside: the UUID of its response, the message IDs and
-- times that it draws, one for each entry of a batch, and the clock at its end.
pub mod Queues
pub mod Messages
pub mod Batches
pub mod Policies
pub mod Attributes
pub mod Updates
pub mod Tags
pub mod JsonAnswer
pub mod Dispatch
pub mod Calls
use Prim.Native.Char.{Char}
use Prim.Native.String
use lclq.Common.{ℕ, String, Bool, List, [], ◌∷◌, Option, none, some, if◌then◌else◌}
use lclq.Common.Text.{◌<>◌}
use lclq.Common.Decimal.{parse_unsigned}
use lclq.Common.Chars.{is_char}
use lclq.Common.Split.{push_front}
use lclq.Sqs.Json.{SerdeJson}
use lclq.Sqs.Request.{SqsRequest, get_param, get_required_param, extract_queue_name_from_url}
use lclq.Sqs.Request.Batch.{max_u32}
use lclq.Sqs.Response.{build_error_response}
use lclq.Sqs.Types.{
  Attempt, success, failure, SqsErrorCode, missing_parameter, invalid_parameter_value,
  queue_does_not_exist,
}
use lclq.Types.{DateTime, MessageId, QueueConfig}
use lclq.Error.{Result, ok, err}

pub record Outside : Type 0 where
  pub md5_hex : List ℕ → String
  pub decode_base64 : String → Option (List ℕ)
  pub is_alphanumeric : Char → Bool
  pub to_lowercase : String → String
  pub serde : SerdeJson

pub record Readings : Type 0 where
  pub request_id : String
  pub new_id : ℕ → MessageId
  pub now : ℕ → DateTime
  pub answered_at : DateTime

-- `and_then(|v| v.parse().ok())` for a number of 32 bits.
abbrev pub parsed : Option String → Option ℕ
parsed none = none
parsed (some text) = parse_unsigned max_u32 text

unfoldable pub get_queue_url : (base_url queue_name : String) → String
get_queue_url base_url queue_name = base_url <> "/queue/" <> queue_name

module _ {State : Type 0} where
  -- The answer of a failed check: the state stays.
  abbrev pub refuse : SqsErrorCode → (message request_id : String) → State → String × State
  refuse code message request_id s = (build_error_response code message request_id, s)

  -- The continuations of a required parameter, of the name in a URL and of a look-up.
  unfoldable pub on_value :
      (request_id : String) → State → (String → String × State) → Attempt String → String × State
  on_value request_id s next (failure e) = refuse missing_parameter e request_id s
  on_value request_id s next (success value) = next value

  unfoldable pub required :
      SqsRequest → (request_id key : String) → State → (String → String × State) → String × State
  unfolding on_value
  required request request_id key s next =
      on_value request_id s next (get_required_param request key)

  unfoldable pub on_name :
      (request_id : String) → State → (String → String × State) → Option String → String × State
  on_name request_id s next none = refuse invalid_parameter_value "Invalid QueueUrl" request_id s
  on_name request_id s next (some queue_name) = next queue_name

  unfoldable pub queue_of_url :
      (request_id queue_url : String) → State → (String → String × State) → String × State
  unfolding on_name
  queue_of_url request_id queue_url s next =
      on_name request_id s next (extract_queue_name_from_url queue_url)

  -- Most actions begin with the two.
  unfoldable pub with_queue :
      SqsRequest → (request_id : String) → State → (String → String × State) → String × State
  unfolding required queue_of_url
  with_queue request request_id s next =
      required request request_id "QueueUrl" s λ queue_url. queue_of_url request_id queue_url s next

  unfoldable pub on_config :
      (request_id : String)
      → State
      → (QueueConfig → String × State)
      → Result QueueConfig
      → String × State
  on_config request_id s next (err _) =
      refuse queue_does_not_exist "The specified queue does not exist" request_id s
  on_config request_id s next (ok config) = next config
