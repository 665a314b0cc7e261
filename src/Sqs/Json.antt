-- ===== src/Sqs/Json.antt =====
-- `serde_json::Value` as sqs/request.rs and sqs/handler.rs use it. Parsing and printing stand for
-- the crate: `from_str` gives the value of a text that is JSON, `to_string` its compact text. The
-- members of an object come in the order in which the crate iterates them.
use lclq.Common.{ℕ, String, Bool, List, [], ◌∷◌, Option, none, some, unwrap_or}
use lclq.Common.HashMap.{HashMap, get}

-- A number that is an unsigned 64-bit integer, or the text of another one.
pub data Number : Type 0 where
  unsigned : ℕ → Number
  other : String → Number

mutual
  pub data Value : Type 0 where
    null : Value
    bool : Bool → Value
    number : Number → Value
    string : String → Value
    array : Values → Value
    object : Members → Value

  pub data Values : Type 0 where
    no_values : Values
    value : Value → Values → Values

  pub data Members : Type 0 where
    no_members : Members
    member : String → Value → Members → Members

pub record SerdeJson : Type 0 where
  pub from_str : String → Option Value
  pub to_string : Value → String

abbrev pub items : Values → List Value
items no_values = []
items (value v vs) = v ∷ items vs

abbrev pub entries : Members → HashMap Value
entries no_members = []
entries (member k v ms) = (k, v) ∷ entries ms

abbrev pub as_str : Value → Option String
as_str (string s) = some s
as_str _ = none

abbrev pub as_u64 : Value → Option ℕ
as_u64 (number (unsigned n)) = some n
as_u64 _ = none

abbrev pub as_array : Value → Option (List Value)
as_array (array vs) = some (items vs)
as_array _ = none

abbrev pub as_object : Value → Option (HashMap Value)
as_object (object ms) = some (entries ms)
as_object _ = none

-- `value[key]`: null where the value is no object or has no such member.
unfoldable pub index : Value → String → Value
unfolding get
index (object ms) key = unwrap_or (get key (entries ms)) null
index _ key = null

-- `match v { Value::String(s) => s, _ => v.to_string() }`.
abbrev pub text_of : SerdeJson → Value → String
text_of serde (string s) = s
text_of serde v = serde.to_string v

-- The texts among some values (`filter_map` with `as_str`).
abbrev pub texts : List Value → List String
texts [] = []
texts (string s ∷ vs) = s ∷ texts vs
texts (_ ∷ vs) = texts vs
