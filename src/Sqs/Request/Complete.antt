-- ===== src/Sqs/Request/Complete.antt =====
-- About the loops of sqs/request.rs over numbered parameters: where they stop.
use text.Mathlib.TextLemmas.{append_cancel_left, append_cancel_right}
use lclq.Common.{
  ℕ, suc, String, ◌≡◌, refl, ap, ◌∙◌, inl, inr, Option, none, some, length, Option-cases, arith,
}
use lclq.Common.Decimal.{to_string_injective}
use lclq.Common.Numbered.{collect}
use lclq.Common.Numbered.Complete.{collect_stops}
use lclq.Common.Text.{◌<>◌, to_string}
use lclq.Sqs.Digest.{SqsMessageAttributeValue}
use lclq.Sqs.Request.{
  SqsRequest, get_param, both, fuel, attribute_key, message_attribute, queue_attribute,
}

numbered_injective :
    (prefix suffix : String) (i j : ℕ)
    → prefix <> to_string i <> suffix ≡ prefix <> to_string j <> suffix
    → i ≡ j
numbered_injective prefix suffix i j e =
    to_string_injective i j (append_cancel_right _ _ suffix (append_cancel_left prefix _ _ e))

both-first :
    (a b : Option String) (c : String × String) → both a b ≡ some c → (x : String) × (a ≡ some x)
both-first none b c h = cc
both-first (some x) b c h = (x, refl)

-- A loop stops behind the entries that it reads, if what it reads at an index needs the parameter
-- of that index.
stops {ℓ} :
    {A : Type ℓ} (prefix suffix : String) (read : ℕ → Option A) (request : SqsRequest)
    → ((i : ℕ) (a : A)
        → read i ≡ some a
        → (v : String) × (get_param request (prefix <> to_string i <> suffix) ≡ some v))
    → read (suc (length (collect read (fuel request) 1))) ≡ none
unfolding get_param
stops prefix suffix read request found =
    ap read (omega arith)
    ∙ collect_stops (λ i. prefix <> to_string i <> suffix) read request.params
        (numbered_injective prefix suffix) (fuel request) 1 (omega arith) (λ i a le. found i a)

message_attribute-name :
    (request : SqsRequest) (i : ℕ) (a : String × SqsMessageAttributeValue)
    → message_attribute request i ≡ some a
    → (v : String) × (get_param request (attribute_key i ".Name") ≡ some v)
unfolding message_attribute
message_attribute-name request i a h =
    elim (Option-cases (
      both (get_param request (attribute_key i ".Name"))
        (get_param request (attribute_key i ".Value.DataType")))) [
          | inl n ↦ absurd (ground arith)
          | inr (found, e) ↦ both-first _ _ found e
        ]

-- The loops over the message attributes and over the queue attributes of a request stop at an
-- index whose parameters are missing, so that the number of parameters plus one is enough fuel.
pub collect-stops_at_missing :
    (request : SqsRequest)
    → (message_attribute request
          (suc (length (collect (message_attribute request) (fuel request) 1)))
        ≡ none)
      × (queue_attribute request (suc (length (collect (queue_attribute request) (fuel request) 1)))
          ≡ none)
unfolding queue_attribute
collect-stops_at_missing request = (
  stops "MessageAttribute." ".Name" (message_attribute request) request
      (message_attribute-name request),
  stops "Attribute." ".Name" (queue_attribute request) request (λ i a h. both-first _ _ a h),
)
