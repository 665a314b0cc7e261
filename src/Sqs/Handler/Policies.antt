-- ===== src/Sqs/Handler/Policies.antt =====
-- sqs/handler.rs: the redrive policies that requests carry as JSON texts.
pub mod RoundTrip
use Prim.Native.String
use lclq.Common.{ℕ, String, List, [], ◌∷◌, Option, none, some, str_eq, if◌then◌else◌, unwrap_or}
use lclq.Common.Split.{split_colon}
use lclq.Common.Chars.{is_char}
use lclq.Common.Split.{push_front}
use lclq.Sqs.Handler.{parsed}
use lclq.Sqs.Json.{SerdeJson, Value, as_array, as_str, as_u64, index, texts}
use lclq.Sqs.Request.Batch.{as_u32}
use lclq.Types.{DlqConfig, RedrivePermission, allow_all, deny_all, by_queue, RedriveAllowPolicy}

last_of : List String → String
last_of [] = ""
last_of (piece ∷ []) = piece
last_of (piece ∷ next ∷ pieces) = last_of (next ∷ pieces)

-- `split(':').next_back()`, which is never none.
unfoldable pub queue_of_arn : String → String
unfolding last_of
queue_of_arn arn = last_of (split_colon arn)

-- `CreateQueue` takes the count as a text and has defaults.
unfoldable pub created_dlq_config : Value → DlqConfig
unfolding queue_of_arn
created_dlq_config policy = record {
  target_queue_id = queue_of_arn (unwrap_or (as_str (index policy "deadLetterTargetArn")) "");
  max_receive_count = unwrap_or (parsed (as_str (index policy "maxReceiveCount"))) 5;
}

-- `SetQueueAttributes` takes it as a number, and both must be given.
dlq_config_of : Option String → Option ℕ → Option DlqConfig
unfolding queue_of_arn
dlq_config_of (some arn) (some count) =
    some (record { target_queue_id = queue_of_arn arn; max_receive_count = as_u32 count })
dlq_config_of _ _ = none

unfoldable pub set_dlq_config : Value → Option DlqConfig
unfolding dlq_config_of
set_dlq_config policy =
    dlq_config_of (as_str (index policy "deadLetterTargetArn"))
      (as_u64 (index policy "maxReceiveCount"))

source_arns : Option (List Value) → List String
source_arns none = []
source_arns (some values) = texts values

unfoldable pub permission_of : (permission : String) → Value → Option RedrivePermission
unfolding source_arns
permission_of permission policy =
    if str_eq permission "allowAll"
    then some allow_all
    else if str_eq permission "denyAll"
    then some deny_all
    else if str_eq permission "byQueue"
    then some (by_queue (source_arns (as_array (index policy "sourceQueueArns"))))
    else none

abbrev pub allow_policy : Option RedrivePermission → Option RedriveAllowPolicy
allow_policy none = none
allow_policy (some p) = some (record { permission = p })

created_permission : Option String → Value → Option RedrivePermission
created_permission none policy = none
created_permission (some permission) policy = permission_of permission policy

unfoldable pub created_allow_policy : Value → Option RedriveAllowPolicy
unfolding created_permission
created_allow_policy policy =
    allow_policy (created_permission (as_str (index policy "redrivePermission")) policy)
