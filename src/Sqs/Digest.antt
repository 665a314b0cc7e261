-- ===== src/Sqs/Digest.antt =====
-- sqs/types.rs: the digests of bodies and of message attributes. `md5_hex` stands for `Md5` of the
-- `md5` crate with its output in hexadecimal, `decode_base64` for the standard engine of the
-- `base64` crate.
pub mod Order
use Prim.Native.String.{len}
use lclq.Common.{ℕ, String, List, [], ◌∷◌, ◌++◌, Option, none, some, length}
use lclq.Common.Bytes.{as_bytes, to_be_bytes}
use lclq.Common.HashMap.{HashMap}
use lclq.Common.Sorting.{sort_by_key}

pub record SqsMessageAttributeValue : Type 0 where
  pub data_type : String
  pub string_value : Option String
  pub binary_value : Option String

abbrev pub SqsMessageAttributes : Type 0
SqsMessageAttributes = HashMap SqsMessageAttributeValue

module _ (md5_hex : List ℕ → String) where
  unfoldable pub calculate_md5_of_body : String → String
  calculate_md5_of_body body = md5_hex (as_bytes body)

module _ (md5_hex : List ℕ → String) (decode_base64 : String → Option (List ℕ)) where
  -- `len() as u32` is taken modulo 2 ^ 32, as `to_be_bytes` takes the four low bytes.
  value_bytes : (string_value binary_value : Option String) → List ℕ
  value_bytes (some string_value) binary_value =
      to_be_bytes (len string_value) ++ as_bytes string_value
  value_bytes none none = []
  value_bytes none (some binary_value) = elim (decode_base64 binary_value) [
    | none ↦ []
    | some decoded ↦ to_be_bytes (length decoded) ++ decoded
  ]

  attribute_bytes : String × SqsMessageAttributeValue → List ℕ
  unfolding value_bytes
  attribute_bytes (name, value) =
      to_be_bytes (len name)
      ++ as_bytes name
      ++ to_be_bytes (len value.data_type)
      ++ as_bytes value.data_type
      ++ value_bytes value.string_value value.binary_value

  buffer : SqsMessageAttributes → List ℕ
  unfolding attribute_bytes
  buffer [] = []
  buffer (e ∷ attributes) = attribute_bytes e ++ buffer attributes

  unfoldable pub calculate_md5_of_attributes : SqsMessageAttributes → String
  unfolding buffer
  calculate_md5_of_attributes attributes = md5_hex (buffer (sort_by_key attributes))
