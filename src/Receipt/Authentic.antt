-- ===== src/Receipt/Authentic.antt =====
-- About core/receipt.rs: which handles are accepted.
use Prim.Native.Nat.{bit_or, bit_xor}
use lclq.Common.{
  ℕ, String, ◌≡◌, refl, ap, ◌↔◌, List, [], ◌∷◌, none, some, length, arith, inl, inr, ◌∙◌,
  Option-cases,
}
use lclq.Common.Bits.{eq_of_bit_xor-eq-zero, bit_xor_self, zeros_of_bit_or-eq-zero, zero-bit_or}
use lclq.Error.{invalid_receipt_handle, ok, >>=-eq-ok_of_option}
use lclq.Types.{MessageId}
use lclq.Receipt.{
  ReceiptHandleData, ReceiptCodec, collect_diff, compute_hmac, generate_receipt_handle,
  verify_signature, parse_receipt_handle,
}

collect_diff-eq-zero :
    (diff : ℕ) (xs ys : List ℕ)
    → length xs ≡ length ys
    → collect_diff diff xs ys ≡ 0
    → (diff ≡ 0) × (xs ≡ ys)
unfolding collect_diff
collect_diff-eq-zero diff [] [] l h = (h, refl)
collect_diff-eq-zero diff [] (y ∷ ys) l h = absurd (omega arith)
collect_diff-eq-zero diff (x ∷ xs) [] l h = absurd (omega arith)
collect_diff-eq-zero diff (x ∷ xs) (y ∷ ys) l h =
    let rest = collect_diff-eq-zero (bit_or diff (bit_xor x y)) xs ys (omega arith) h in
    let zeros = zeros_of_bit_or-eq-zero diff (bit_xor x y) rest.0 in
    (zeros.0, cc (eq_of_bit_xor-eq-zero x y zeros.1, rest.1))

collect_diff_self : (xs : List ℕ) → collect_diff 0 xs xs ≡ 0
unfolding collect_diff
collect_diff_self [] = refl
collect_diff_self (x ∷ xs) = rw (bit_xor_self x, zero-bit_or 0) (collect_diff_self xs)

module _ (codec : ReceiptCodec) where
  open codec use {
    base64_decode, from_utf8, from_json, hex_decode, hex_encode, to_json, as_bytes,
    decode-encode_base64, from_utf8-as_bytes, from_json-to_json, decode-encode_hex,
  }

  accepted_bytes :
      (d e : ReceiptHandleData) (text : String) (provided : List ℕ)
      → hex_decode text ≡ some provided
      → verify_signature codec d text ≡ ok e
      → (provided ≡ compute_hmac codec d) × (e ≡ d)
  unfolding verify_signature
  accepted_bytes d e text provided x h =
      ground (arith, collect_diff-eq-zero 0 (compute_hmac codec d) provided)

  -- A signature is accepted exactly if it is a hexadecimal form of the data's HMAC.
  verify_signature_iff :
      (d e : ReceiptHandleData) (text : String)
      → (verify_signature codec d text ≡ ok e)
        ↔ ((hex_decode text ≡ some (compute_hmac codec d)) × (e ≡ d))
  unfolding verify_signature
  verify_signature_iff d e text = (
    λ h. elim (Option-cases (hex_decode text)) [
      | inl x ↦ ground arith
      | inr (provided, x) ↦
          let fits = accepted_bytes d e text provided x h in (x ∙ ap some fits.0, fits.1)
    ],
    λ h. ground (arith, collect_diff_self (compute_hmac codec d)),
  )

  -- What an accepted handle decodes to.
  pub record Accepts (handle : String) (d : ReceiptHandleData) : Type 0 where
    pub bytes : List ℕ
    pub json : String
    pub text : String
    pub decoded : base64_decode handle ≡ some bytes
    pub valid_utf8 : from_utf8 bytes ≡ some json
    pub parsed : from_json json ≡ some (record d { signature = some text })
    pub unsigned : d.signature ≡ none
    pub authentic : hex_decode text ≡ some (compute_hmac codec d)

  -- A receipt handle is accepted only if it is the encoding of its data with a signature that is
  -- this server's HMAC of that data.
  pub parse_receipt_handle-Accepts :
      (handle : String) (d : ReceiptHandleData)
      → parse_receipt_handle codec handle ≡ ok d
      → Accepts handle d
  unfolding parse_receipt_handle
  parse_receipt_handle-Accepts handle d h =
      let (bytes, decoded, h₁) =
        >>=-eq-ok_of_option (base64_decode handle) invalid_receipt_handle _ h in
      let (json, valid_utf8, h₂) =
        >>=-eq-ok_of_option (from_utf8 bytes) invalid_receipt_handle _ h₁ in
      let (parsed, read, h₃) = >>=-eq-ok_of_option (from_json json) invalid_receipt_handle _ h₂ in
      let (text, signed, h₄) = >>=-eq-ok_of_option parsed.signature invalid_receipt_handle _ h₃ in
      let checked = (verify_signature_iff (record parsed { signature = none }) d text).0 h₄ in
      record {
        bytes = bytes;
        json = json;
        text = text;
        decoded = decoded;
        valid_utf8 = valid_utf8;
        parsed = ground arith;
        unsigned = ground arith;
        authentic = ground arith;
      }

  -- A generated receipt handle is accepted and gives back the queue, the message and the nonce.
  pub parse-generate_receipt_handle :
      (queue_id : String) (message_id : MessageId) (nonce : String)
      → parse_receipt_handle codec (generate_receipt_handle codec queue_id message_id nonce)
        ≡ ok (record {
          queue_id = queue_id;
          message_id = message_id;
          nonce = nonce;
          signature = none;
        })
  unfolding parse_receipt_handle generate_receipt_handle
  parse-generate_receipt_handle queue_id message_id nonce =
      simp (decode-encode_base64, from_utf8-as_bytes, from_json-to_json)
        ((verify_signature_iff _ _ _).1 (decode-encode_hex _, refl))

  -- Handles with different nonces are different.
  pub generate_receipt_handle_inj :
      (q q' : String) (id id' : MessageId) (n n' : String)
      → generate_receipt_handle codec q id n ≡ generate_receipt_handle codec q' id' n'
      → n ≡ n'
  generate_receipt_handle_inj q q' id id' n n' h = cc (
    parse-generate_receipt_handle q id n,
    parse-generate_receipt_handle q' id' n',
    ap (parse_receipt_handle codec) h,
  )
