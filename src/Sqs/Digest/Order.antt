-- ===== src/Sqs/Digest/Order.antt =====
-- About the digest of message attributes in sqs/types.rs.
use mathlib.Core.List.{Permᴰ}
use lclq.Common.{ℕ, String, ◌≡◌, ap, List, Option}
use lclq.Common.HashMap.{HasUniqueKeys}
use lclq.Common.Sorting.Order.{sort_by_key-Perm}
use lclq.Sqs.Digest.{SqsMessageAttributes, buffer, calculate_md5_of_attributes}

-- For message attributes with unique names the digest does not depend on the order in which the
-- map is iterated.
pub calculate_md5_of_attributes-Perm :
    (md5_hex : List ℕ → String) (decode_base64 : String → Option (List ℕ))
    (attributes others : SqsMessageAttributes)
    → Permᴰ attributes others
    → HasUniqueKeys attributes
    → calculate_md5_of_attributes md5_hex decode_base64 attributes
      ≡ calculate_md5_of_attributes md5_hex decode_base64 others
unfolding calculate_md5_of_attributes
calculate_md5_of_attributes-Perm md5_hex decode_base64 attributes others p u =
    ap (λ sorted. md5_hex (buffer md5_hex decode_base64 sorted)) (sort_by_key-Perm p u)
