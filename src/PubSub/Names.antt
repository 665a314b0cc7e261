-- ===== src/PubSub/Names.antt =====
-- pubsub/types.rs: `ResourceName`, its text form and its parser.
pub mod RoundTrip
use Prim.Native.Char.{Char}
use Prim.Native.String
use lclq.Common.{
  String, Bool, true, false, List, [], ◌∷◌, Option, none, some, str_eq, if◌then◌else◌,
}
use lclq.Common.Chars.{is_char}
use lclq.Common.Split.{push_front}
use lclq.Common.Text.{◌<>◌}
use lclq.Error.{Error, validation, invalid_parameter, Result, ok, err}

pub data ResourceName : Type 0 where
  topic : (project topic_id : String) → ResourceName
  subscription : (project subscription_id : String) → ResourceName
  snapshot : (project snapshot_id : String) → ResourceName

-- `split('/')`: the pieces between the slashes, one more than there are slashes.
unfoldable pub split_slash : String → List String
split_slash String.[] = "" ∷ []
split_slash (String.◌∷◌ c s) =
    let rest = split_slash s in if is_char b'/' c then "" ∷ rest else push_front c rest

bad_format : String → Error
bad_format name =
    validation (invalid_parameter "resource_name" ("Invalid resource name format: " <> name))

bad_type : String → Error
bad_type resource_type =
    validation (invalid_parameter "resource_type" ("Unknown resource type: " <> resource_type))

-- The match on the third part.
typed : (resource_type project resource_id : String) → Result ResourceName
unfolding bad_type
typed resource_type project resource_id =
    if str_eq resource_type "topics"
    then ok (topic project resource_id)
    else if str_eq resource_type "subscriptions"
    then ok (subscription project resource_id)
    else if str_eq resource_type "snapshots"
    then ok (snapshot project resource_id)
    else err (bad_type resource_type)

-- The test of the parts: four of them, of which the first is "projects".
from_parts : String → List String → Result ResourceName
unfolding bad_format typed
from_parts name (p ∷ project ∷ resource_type ∷ resource_id ∷ []) =
    if str_eq p "projects" then typed resource_type project resource_id else err (bad_format name)
from_parts name _ = err (bad_format name)

unfoldable pub parse : String → Result ResourceName
unfolding from_parts
parse name = from_parts name (split_slash name)

abbrev pub project : ResourceName → String
project (topic p _) = p
project (subscription p _) = p
project (snapshot p _) = p

abbrev pub resource_id : ResourceName → String
resource_id (topic _ i) = i
resource_id (subscription _ i) = i
resource_id (snapshot _ i) = i

-- The associated functions `topic`, `subscription` and `snapshot`, and `Display`, which has the
-- same three formats.
abbrev pub format_topic : (project topic : String) → String
format_topic p t = "projects/" <> p <> "/topics/" <> t

abbrev pub format_subscription : (project subscription : String) → String
format_subscription p s = "projects/" <> p <> "/subscriptions/" <> s

abbrev pub format_snapshot : (project snapshot : String) → String
format_snapshot p s = "projects/" <> p <> "/snapshots/" <> s

unfoldable pub display : ResourceName → String
display (topic p t) = format_topic p t
display (subscription p s) = format_subscription p s
display (snapshot p s) = format_snapshot p s
