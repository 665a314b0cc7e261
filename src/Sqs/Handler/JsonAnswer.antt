-- ===== src/Sqs/Handler/JsonAnswer.antt =====
-- sqs/handler.rs: `xml_to_json_response`, which finds the tags of an XML response and copies their
-- texts into JSON. Positions are in bytes, as `find` gives them; none is the panic of a slice whose
-- ends are in the wrong order. The fuel of a loop is more than the bytes of the text, of which each
-- round passes over some. The choice among the answers is in the child module.
pub mod Choice
use Prim.Native.String.{len}
use text.Mathlib.Text.{find?, get?}
use lclq.Common.{
  ℕ, zero, suc, ◌+◌, ◌-◌, String, Bool, true, false, ◌||◌, ◌&&◌, List, [], ◌∷◌, Option, none, some,
  str_eq, if◌then◌else◌, unwrap_or,
}
use lclq.Common.Replace.{contains}
use lclq.Common.Sorting.{str_leb}
use lclq.Common.Text.{◌<>◌}
use lclq.Sqs.Escape.{unescape_xml}
use lclq.Sqs.Json.{
  Value, Values, Members, bool, string, array, object, no_values, value, no_members, member,
}

abbrev pub open_tag : String → String
open_tag name = "<" <> name <> ">"

abbrev pub close_tag : String → String
close_tag name = "</" <> name <> ">"

-- `Map::insert`: the crate keeps the keys sorted.
unfoldable pub put : String → Value → Members → Members
put key v no_members = member key v no_members
put key v (member k w rest) =
    let further = put key v rest in
    if str_eq key k
    then member key v rest
    else if str_leb key k
    then member key v (member k w rest)
    else member k w further

infixl 5 ◌>>=◌
abbrev pub ◌>>=◌ {ℓ κ} : {A : Type ℓ} {B : Type κ} → Option A → (A → Option B) → Option B
none >>= f = none
some a >>= f = f a

-- The text between the first opening tag and the first closing tag, where both occur.
unfoldable pub extract : (name xml : String) → Option (Option String)
extract name xml = elim (find? xml (open_tag name)) [
  | none ↦ some none
  | some start ↦ elim (find? xml (close_tag name)) [
    | none ↦ some none
    | some end ↦ elim (get? xml (start + len (open_tag name)) end) [
      | none ↦ none
      | some text ↦ some (some text)
    ]
  ]
]

put_found : (key : String) → Option String → Members → Members
unfolding put
put_found key none object_ = object_
put_found key (some text) object_ = put key (string text) object_

-- A field is named as the tag whose text it takes.
unfoldable pub copy : (name xml : String) → Members → Option Members
unfolding put_found
copy name xml fields = extract name xml >>= λ text. some (put_found name text fields)

abbrev pub cut : String → (start end : ℕ) → String
cut s start end = unwrap_or (get? s start end) ""

-- The pieces of a text that an opening and the next closing tag delimit, with the tags.
pieces_from : (fuel : ℕ) (name xml : String) → List String
pieces_from zero name xml = []
pieces_from (suc fuel) name xml = elim (find? xml (open_tag name)) [
  | none ↦ []
  | some start ↦
      let opened = cut xml start (len xml) in
      elim (find? opened (close_tag name)) [
        | none ↦ []
        | some close ↦
            let end = close + len (close_tag name) in
            cut opened 0 end ∷ pieces_from fuel name (cut opened end (len opened))
      ]
]

unfoldable pub pieces : (name xml : String) → List String
unfolding pieces_from
pieces name xml = pieces_from (suc (len xml)) name xml

unfoldable pub values_of : (String → Option Value) → List String → Option Values
values_of f [] = some no_values
values_of f (piece ∷ rest) = f piece >>= λ v. values_of f rest >>= λ vs. some (value v vs)

-- An attribute with its name and its text, as `read` gives it.
put_attribute : (read : String → String) → (name text : Option String) → Members → Members
put_attribute read (some name) (some text) fields = put name (string (read text)) fields
put_attribute read _ _ fields = fields

abbrev pub value_unless_unnamed : Option String → (xml : String) → Option (Option String)
unfolding extract
value_unless_unnamed none xml = some none
value_unless_unnamed (some name) xml = extract "Value" xml

unfoldable pub attributes : (read : String → String) → List String → Members → Option Members
unfolding put_attribute
attributes read [] fields = some fields
attributes read (xml ∷ rest) fields = extract "Name" xml >>= λ name.
    value_unless_unnamed name xml >>= λ text.
    attributes read rest (put_attribute read name text fields)

attribute_value : Option String → (xml : String) → Members → Option Members
unfolding put copy
attribute_value none xml fields = some fields
attribute_value (some name) xml fields =
    copy "DataType" xml no_members >>= copy "StringValue" xml >>= copy "BinaryValue" xml >>= λ info.
    some (put name (object info) fields)

message_attributes : List String → Members → Option Members
unfolding attribute_value
message_attributes [] fields = some fields
message_attributes (xml ∷ rest) fields =
    extract "Name" xml >>= λ name. attribute_value name xml fields >>= message_attributes rest

put_unless_empty : (key : String) → Members → Members → Members
unfolding put
put_unless_empty key no_members fields = fields
put_unless_empty key found fields = put key (object found) fields

message : (xml : String) → Option Value
unfolding message_attributes put_unless_empty
message xml =
    copy "MessageId" xml no_members
    >>= copy "ReceiptHandle" xml
    >>= copy "Body" xml
    >>= copy "MD5OfBody" xml
    >>= λ fields. attributes (λ text. text) (pieces "Attribute" xml) no_members >>= λ found.
        message_attributes (pieces "MessageAttribute" xml) no_members >>= λ infos. some (
          object (
            put_unless_empty "MessageAttributes" infos
              (put_unless_empty "Attributes" found fields)))

abbrev pub single : (key : String) → Value → Value
single key v = object (member key v no_members)

unfoldable pub messages_answer : (xml : String) → Option Value
unfolding message
messages_answer xml =
    values_of message (pieces "Message" xml) >>= λ vs. some (single "Messages" (array vs))

-- The text of a piece between its tags.
inner : (name piece : String) → Option Value
inner name piece =
    some (string (cut piece (len (open_tag name)) (len piece - len (close_tag name))))

unfoldable pub urls_answer : (xml : String) → Option Value
unfolding inner
urls_answer xml = values_of (inner "QueueUrl") (pieces "QueueUrl" xml) >>= λ vs.
    some (single "QueueUrls" (array vs))

unfoldable pub attributes_answer : (xml : String) → Option Value
unfolding attributes
attributes_answer xml = attributes unescape_xml (pieces "Attribute" xml) no_members >>= λ fields.
    some (single "Attributes" (object fields))
