-- ===== src/Receipt.antt =====
-- core/receipt.rs: receipt handles, signed with an HMAC. The crates that the code calls (base64,
-- serde_json, hmac with sha2, hex), the UTF-8 conversions of texts and the secret of the
-- environment are the interface `ReceiptCodec`, with the laws that their documentation states.
pub mod Authentic
use Prim.Native.Nat.{bit_or, bit_xor}
use lclq.Common.{
  ℕ, zero, String, ◌≡◌, List, [], ◌∷◌, Option, none, some, length, ◌==◌, if◌then◌else◌,
}
use lclq.Error.{Error, invalid_receipt_handle, Result, ok, err, ok_or, ◌>>=◌}
use lclq.Types.{MessageId}

pub record ReceiptHandleData : Type 0 where
  pub queue_id : String
  pub message_id : MessageId
  pub nonce : String
  pub signature : Option String

pub record ReceiptCodec : Type 0 where
  pub secret_key : List ℕ
  pub base64_encode : List ℕ → String
  pub base64_decode : String → Option (List ℕ)
  pub as_bytes : String → List ℕ
  pub from_utf8 : List ℕ → Option String
  pub to_json : ReceiptHandleData → String
  pub from_json : String → Option ReceiptHandleData
  pub hmac_sha256 : (key message : List ℕ) → List ℕ
  pub hex_encode : List ℕ → String
  pub hex_decode : String → Option (List ℕ)
  pub decode-encode_base64 : (bytes : List ℕ) → base64_decode (base64_encode bytes) ≡ some bytes
  pub from_utf8-as_bytes : (text : String) → from_utf8 (as_bytes text) ≡ some text
  pub from_json-to_json : (data' : ReceiptHandleData) → from_json (to_json data') ≡ some data'
  pub decode-encode_hex : (bytes : List ℕ) → hex_decode (hex_encode bytes) ≡ some bytes

-- The differences of two byte strings, collected in one number: the loop of the constant-time
-- comparison. `zip` stops at the end of the shorter one.
collect_diff : ℕ → List ℕ → List ℕ → ℕ
collect_diff diff [] provided = diff
collect_diff diff (a ∷ expected) [] = diff
collect_diff diff (a ∷ expected) (b ∷ provided) =
    collect_diff (bit_or diff (bit_xor a b)) expected provided

module _ (codec : ReceiptCodec) where
  open codec use {
    secret_key, base64_encode, base64_decode, as_bytes, from_utf8, to_json, from_json, hmac_sha256,
    hex_encode, hex_decode,
  }

  -- The HMAC of the data's JSON without a signature.
  pub compute_hmac : ReceiptHandleData → List ℕ
  compute_hmac d = hmac_sha256 secret_key (as_bytes (to_json d))

  -- `nonce` is the text of the random UUID that the call draws.
  pub generate_receipt_handle :
      (queue_id : String) (message_id : MessageId) (nonce : String) → String
  generate_receipt_handle queue_id message_id nonce =
      let d : ReceiptHandleData = record {
        queue_id = queue_id;
        message_id = message_id;
        nonce = nonce;
        signature = none;
      } in
      let signature = hex_encode (compute_hmac d) in
      base64_encode (as_bytes (to_json (record d { signature = some signature })))

  -- The comparison of the two signatures.
  verify_signature : ReceiptHandleData → (provided_signature : String) → Result ReceiptHandleData
  unfolding collect_diff
  verify_signature d provided_signature = do
    provided ← ok_or (hex_decode provided_signature) invalid_receipt_handle
    let expected = compute_hmac d
    if length expected == length provided
        then (if collect_diff 0 expected provided == 0 then ok d else err invalid_receipt_handle)
        else err invalid_receipt_handle

  pub parse_receipt_handle : String → Result ReceiptHandleData
  unfolding verify_signature
  parse_receipt_handle receipt_handle = do
    decoded ← ok_or (base64_decode receipt_handle) invalid_receipt_handle
    json ← ok_or (from_utf8 decoded) invalid_receipt_handle
    parsed ← ok_or (from_json json) invalid_receipt_handle
    provided ← ok_or parsed.signature invalid_receipt_handle
    verify_signature (record parsed { signature = none }) provided
