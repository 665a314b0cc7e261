-- ===== src/Witnesses/Codec.antt =====
-- A codec that has the laws of `ReceiptCodec`: bytes as the numbers of characters, numbers in
-- unary for base64 and hex, and the fields of a handle one after the other for JSON.
use Prim.Native.Nat.{compare, Ordering}
use Prim.Native.Char.{Char, char, code, nul, IsScalar}
use Prim.Native.String.{[] as empty, ◌∷◌ as cons}
use text.Mathlib.TextEquality.{Char-path}
use lclq.Common.{
  ℕ, zero, suc, ◌+◌, String, ◌≡◌, refl, ap, ◌∙◌, ◌⊎◌, inl, inr, List, [], ◌∷◌, Option, none, some,
  arith, if◌then◌else◌,
}
use lclq.Common.Chars.{is_char}
use lclq.Receipt.{ReceiptHandleData, ReceiptCodec}

abbrev Ordering-cases : (o : Ordering) → (o ≡ Ordering.lt) ⊎ ((o ≡ Ordering.eq) ⊎ (o ≡ Ordering.gt))
Ordering-cases Ordering.lt = inl refl
Ordering-cases Ordering.eq = inr (inl refl)
Ordering-cases Ordering.gt = inr (inr refl)

abbrev scalar_cases : (n : ℕ) → IsScalar n ⊎ (¬ IsScalar n)
scalar_cases n = elim (Ordering-cases (compare n 55296)) [
  | inl e ↦ inl (rw e tt)
  | inr (inl e) ↦ elim (Ordering-cases (compare 57343 n)) [
    | inl f ↦ elim (Ordering-cases (compare n 1114112)) [
      | inl g ↦ inl (rw (e, f, g) tt)
      | inr (inl g) ↦ inr (rw (e, f, g) λ p. p)
      | inr (inr g) ↦ inr (rw (e, f, g) λ p. p)
    ]
    | inr (inl f) ↦ inr (rw (e, f) λ p. p)
    | inr (inr f) ↦ inr (rw (e, f) λ p. p)
  ]
  | inr (inr e) ↦ elim (Ordering-cases (compare 57343 n)) [
    | inl f ↦ elim (Ordering-cases (compare n 1114112)) [
      | inl g ↦ inl (rw (e, f, g) tt)
      | inr (inl g) ↦ inr (rw (e, f, g) λ p. p)
      | inr (inr g) ↦ inr (rw (e, f, g) λ p. p)
    ]
    | inr (inl f) ↦ inr (rw (e, f) λ p. p)
    | inr (inr f) ↦ inr (rw (e, f) λ p. p)
  ]
]

abbrev to_char : (n : ℕ) → IsScalar n ⊎ (¬ IsScalar n) → Char
to_char n (inl p) = char n p
to_char n (inr q) = nul

abbrev to_char-code :
    (c : Char) (d : IsScalar (code c) ⊎ (¬ IsScalar (code c))) → to_char (code c) d ≡ c
to_char-code (char n p) (inl q) = Char-path (char n q) (char n p) refl
to_char-code (char n p) (inr q) = absurd (q p)

abbrev to_bytes : String → List ℕ
to_bytes empty = []
to_bytes (cons c s) = code c ∷ to_bytes s

abbrev of_bytes : List ℕ → String
of_bytes [] = empty
of_bytes (n ∷ ns) = cons (to_char n (scalar_cases n)) (of_bytes ns)

abbrev of_bytes-to_bytes : (s : String) → of_bytes (to_bytes s) ≡ s
of_bytes-to_bytes empty = refl
of_bytes-to_bytes (cons c s) = rw (to_char-code c (scalar_cases (code c)), of_bytes-to_bytes s) refl

-- Numbers in unary, each with an end mark.
abbrev unary : ℕ → String → String
unary zero rest = cons "." rest
unary (suc n) rest = cons "1" (unary n rest)

abbrev pub write : List ℕ → String
write [] = empty
write (n ∷ ns) = unary n (write ns)

abbrev pub read : ℕ → String → List ℕ
read k empty = []
read k (cons c s) = if is_char b'1' c then read (suc k) s else k ∷ read 0 s

abbrev read-unary : (k n : ℕ) (rest : String) → read k (unary n rest) ≡ (k + n) ∷ read 0 rest
read-unary k zero rest = ap (λ m. m ∷ read 0 rest) (omega arith)
read-unary k (suc n) rest = read-unary (suc k) n rest ∙ ap (λ m. m ∷ read 0 rest) (omega arith)

abbrev pub read-write : (ns : List ℕ) → read 0 (write ns) ≡ ns
read-write [] = refl
read-write (n ∷ ns) =
    read-unary 0 n (write ns)
    ∙ ap (λ l. (0 + n) ∷ l) (read-write ns)
    ∙ ap (λ k. k ∷ ns) (omega arith)

-- A text with an end mark, in front of another.
abbrev quoted : String → String → String
quoted empty rest = cons "." rest
quoted (cons c s) rest = cons "/" (cons c (quoted s rest))

abbrev put_char : Char → Option (String × String) → Option (String × String)
put_char c none = none
put_char c (some (s, rest)) = some (cons c s, rest)

abbrev unquoted : String → Option (String × String)
unquoted empty = none
unquoted (cons d empty) = some (empty, empty)
unquoted (cons d (cons c t)) =
    let longer = put_char c (unquoted t) in
    if is_char b'/' d then longer else some (empty, cons c t)

abbrev unquoted-quoted : (s rest : String) → unquoted (quoted s rest) ≡ some (s, rest)
unquoted-quoted empty empty = refl
unquoted-quoted empty (cons c rest) = refl
unquoted-quoted (cons c s) rest = ap (put_char c) (unquoted-quoted s rest)

abbrev write_signature : Option String → String
write_signature none = empty
write_signature (some s) = cons "+" s

abbrev read_signature : String → Option String
read_signature empty = none
read_signature (cons c s) = some s

abbrev read-write_signature : (o : Option String) → read_signature (write_signature o) ≡ o
read-write_signature none = refl
read-write_signature (some s) = refl

abbrev write_handle : ReceiptHandleData → String
write_handle d =
    quoted d.queue_id (quoted d.message_id (quoted d.nonce (write_signature d.signature)))

abbrev then_text {ℓ} :
    {A : Type ℓ} → Option (String × String) → (String → String → Option A) → Option A
then_text none f = none
then_text (some (s, rest)) f = f s rest

abbrev read_handle : String → Option ReceiptHandleData
read_handle text = then_text (unquoted text) λ q t. then_text (unquoted t) λ m t'.
    then_text (unquoted t') λ n t''.
      some (record { queue_id = q; message_id = m; nonce = n; signature = read_signature t'' })

abbrev read-write_handle : (d : ReceiptHandleData) → read_handle (write_handle d) ≡ some d
read-write_handle d =
    rw
      (
        unquoted-quoted d.queue_id
            (quoted d.message_id (quoted d.nonce (write_signature d.signature))),
        unquoted-quoted d.message_id (quoted d.nonce (write_signature d.signature)),
        unquoted-quoted d.nonce (write_signature d.signature),
        read-write_signature d.signature,
      )
      refl

abbrev pub codec : ReceiptCodec
codec = record {
  secret_key = 1 ∷ 2 ∷ 3 ∷ [];
  base64_encode = write;
  base64_decode = λ s. some (read 0 s);
  as_bytes = to_bytes;
  from_utf8 = λ bytes. some (of_bytes bytes);
  to_json = write_handle;
  from_json = read_handle;
  hmac_sha256 = λ key message. message;
  hex_encode = write;
  hex_decode = λ s. some (read 0 s);
  decode-encode_base64 = λ bytes. ap some (read-write bytes);
  from_utf8-as_bytes = λ text. ap some (of_bytes-to_bytes text);
  from_json-to_json = read-write_handle;
  decode-encode_hex = λ bytes. ap some (read-write bytes);
}
