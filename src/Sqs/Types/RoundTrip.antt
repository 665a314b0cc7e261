-- ===== src/Sqs/Types/RoundTrip.antt =====
-- About sqs/types.rs: printing and parsing of actions and attribute names.
use lclq.Common.{
  String, ◌≡◌, refl, sym, ◌↔◌, ap, ◌∙◌, arith, str_eq, eq_iff, List, [], ◌∷◌, if◌then◌else◌,
}
use lclq.Common.Text.{◌<>◌}
use lclq.Sqs.Types.{
  Attempt, success, failure, SqsAction, action_from_str, action_as_str, QueueAttribute,
  attribute_from_str, attribute_as_str, create_queue, delete_queue, get_queue_url,
  get_queue_attributes, set_queue_attributes, list_queues, purge_queue, tag_queue, untag_queue,
  list_queue_tags, send_message, send_message_batch, receive_message, delete_message,
  delete_message_batch, change_message_visibility, change_message_visibility_batch, all,
  approximate_number_of_messages, approximate_number_of_messages_not_visible,
  approximate_number_of_messages_delayed, created_timestamp, last_modified_timestamp,
  visibility_timeout, maximum_message_size, message_retention_period, delay_seconds, redrive_policy,
  redrive_allow_policy, fifo_queue, content_based_deduplication, queue_arn,
}

-- The first value of a list whose name is the text, which is what a match on names computes.
abbrev lookup {ℓ} : {A : Type ℓ} → (A → String) → String → String → List A → Attempt A
lookup as_str message s [] = failure (message <> s)
lookup as_str message s (a ∷ rest) =
    if str_eq s (as_str a) then success a else lookup as_str message s rest

lookup-name {ℓ} :
    {A : Type ℓ} (as_str : A → String) (message s : String) (table : List A) (a : A)
    → lookup as_str message s table ≡ success a
    → as_str a ≡ s
lookup-name as_str message s [] a h = cc
lookup-name as_str message s (b ∷ rest) a h =
    ground (arith, eq_iff s (as_str b), lookup-name as_str message s rest a)

abbrev all_actions : List SqsAction
all_actions =
    create_queue ∷ delete_queue ∷ get_queue_url ∷ get_queue_attributes ∷ set_queue_attributes
    ∷ list_queues ∷ purge_queue ∷ tag_queue ∷ untag_queue ∷ list_queue_tags ∷ send_message
    ∷ send_message_batch ∷ receive_message ∷ delete_message ∷ delete_message_batch
    ∷ change_message_visibility ∷ change_message_visibility_batch ∷ []

action_from_str-as_str : (a : SqsAction) → action_from_str (action_as_str a) ≡ success a
unfolding action_from_str action_as_str
action_from_str-as_str create_queue = refl
action_from_str-as_str delete_queue = refl
action_from_str-as_str get_queue_url = refl
action_from_str-as_str get_queue_attributes = refl
action_from_str-as_str set_queue_attributes = refl
action_from_str-as_str list_queues = refl
action_from_str-as_str purge_queue = refl
action_from_str-as_str tag_queue = refl
action_from_str-as_str untag_queue = refl
action_from_str-as_str list_queue_tags = refl
action_from_str-as_str send_message = refl
action_from_str-as_str send_message_batch = refl
action_from_str-as_str receive_message = refl
action_from_str-as_str delete_message = refl
action_from_str-as_str delete_message_batch = refl
action_from_str-as_str change_message_visibility = refl
action_from_str-as_str change_message_visibility_batch = refl

action_as_str-from_str :
    (s : String) (a : SqsAction) → action_from_str s ≡ success a → action_as_str a ≡ s
unfolding action_from_str action_as_str
action_as_str-from_str s a h = lookup-name action_as_str "Unknown SQS action: " s all_actions a h

-- A text is parsed to a value just when it is that value's name.
pub action_from_str-as_str_iff :
    (s : String) (a : SqsAction) → (action_from_str s ≡ success a) ↔ (action_as_str a ≡ s)
action_from_str-as_str_iff s a =
    (action_as_str-from_str s a, λ e. ap action_from_str (sym e) ∙ action_from_str-as_str a)

abbrev all_attributes : List QueueAttribute
all_attributes =
    all ∷ approximate_number_of_messages ∷ approximate_number_of_messages_not_visible
    ∷ approximate_number_of_messages_delayed ∷ created_timestamp ∷ last_modified_timestamp
    ∷ visibility_timeout ∷ maximum_message_size ∷ message_retention_period ∷ delay_seconds
    ∷ redrive_policy ∷ redrive_allow_policy ∷ fifo_queue ∷ content_based_deduplication ∷ queue_arn
    ∷ []

attribute_from_str-as_str :
    (a : QueueAttribute) → attribute_from_str (attribute_as_str a) ≡ success a
unfolding attribute_from_str attribute_as_str
attribute_from_str-as_str all = refl
attribute_from_str-as_str approximate_number_of_messages = refl
attribute_from_str-as_str approximate_number_of_messages_not_visible = refl
attribute_from_str-as_str approximate_number_of_messages_delayed = refl
attribute_from_str-as_str created_timestamp = refl
attribute_from_str-as_str last_modified_timestamp = refl
attribute_from_str-as_str visibility_timeout = refl
attribute_from_str-as_str maximum_message_size = refl
attribute_from_str-as_str message_retention_period = refl
attribute_from_str-as_str delay_seconds = refl
attribute_from_str-as_str redrive_policy = refl
attribute_from_str-as_str redrive_allow_policy = refl
attribute_from_str-as_str fifo_queue = refl
attribute_from_str-as_str content_based_deduplication = refl
attribute_from_str-as_str queue_arn = refl

attribute_as_str-from_str :
    (s : String) (a : QueueAttribute) → attribute_from_str s ≡ success a → attribute_as_str a ≡ s
unfolding attribute_from_str attribute_as_str
attribute_as_str-from_str s a h =
    lookup-name attribute_as_str "Unknown queue attribute: " s all_attributes a h

-- A text is parsed to a value just when it is that value's name.
pub attribute_from_str-as_str_iff :
    (s : String) (a : QueueAttribute)
    → (attribute_from_str s ≡ success a) ↔ (attribute_as_str a ≡ s)
attribute_from_str-as_str_iff s a = (
  attribute_as_str-from_str s a,
  λ e. ap attribute_from_str (sym e) ∙ attribute_from_str-as_str a,
)
