-- ===== src/PubSub/Publisher/Service/Fanout.antt =====
-- About the fan-out of `publish` in pubsub/publisher.rs: which subscriptions get the messages.
use lclq.Common.{ℕ, String, ◌≡◌, refl, sym, ap, ◌∙◌, ◌⊎◌, inl, inr, List, [], ◌∷◌, ◌++◌}
use lclq.Error.{Error, Result, ok, err}
use lclq.PubSub.Proto.{Reply, reply}
use lclq.PubSub.Publisher.{copies_for, first_ids, message_ids}
use lclq.Common.Text.{◌<>◌}
use lclq.PubSub.Publisher.Service.{failed, on_sent, fan_out}
use lclq.Storage.{StorageBackend}
use lclq.Types.{DateTime, MessageId, Message, SubscriptionConfig}

module _ {State : Type 0} (backend : StorageBackend State) (encode_base64 : List ℕ → String)
    (new_id : ℕ → MessageId) (now instant : ℕ → DateTime) where
  -- The state when some subscriptions have got their copies, one batch for each in turn.
  abbrev pub send_each : List SubscriptionConfig → List Message → State → State
  send_each [] messages s = s
  send_each (sub ∷ subs) messages s =
      send_each subs messages ((backend.send_messages s sub.id (copies_for sub messages)).1)

  abbrev pub send_copies : SubscriptionConfig → List Message → State → Result (List Message) × State
  send_copies sub messages s = backend.send_messages s sub.id (copies_for sub messages)

  -- The backend accepted the batch of each subscription, with the answers given.
  abbrev pub AllAccepted :
      List SubscriptionConfig → List Message → State → List (List Message) → Type 0
  AllAccepted [] messages s answers = answers ≡ []
  AllAccepted (sub ∷ subs) messages s [] = ⊥
  AllAccepted (sub ∷ subs) messages s (published ∷ answers) =
      ((send_copies sub messages s).0 ≡ ok published)
      × AllAccepted subs messages ((send_copies sub messages s).1) answers

  -- The IDs of the first answer that has any, behind those given already.
  abbrev pub ids_of : List String → List (List Message) → List String
  ids_of ids [] = ids
  ids_of ids (published ∷ answers) = ids_of (first_ids ids (message_ids published)) answers

  -- All subscriptions have got their copies.
  pub record IsComplete (subs : List SubscriptionConfig) (messages : List Message)
      (given : List String) (s : State) (answer : Reply (List String) × State) : Type 0 where
    pub answers : List (List Message)
    pub accepted : AllAccepted subs messages s answers
    pub told : answer.0 ≡ reply (ids_of given answers)
    pub left : answer.1 ≡ send_each subs messages s

  -- Those before the first that the backend refuses have got them, and those behind it have not.
  pub record IsCutOff (subs : List SubscriptionConfig) (messages : List Message) (s : State)
      (answer : Reply (List String) × State) : Type 0 where
    pub served : List SubscriptionConfig
    pub sub : SubscriptionConfig
    pub rest : List SubscriptionConfig
    pub answers : List (List Message)
    pub error : Error
    pub whole : subs ≡ served ++ (sub ∷ rest)
    pub accepted : AllAccepted served messages s answers
    pub refused : (send_copies sub messages (send_each served messages s)).0 ≡ err error
    pub told : answer.0 ≡ failed ("Failed to publish messages to subscription " <> sub.id) error
    pub left : answer.1 ≡ (send_copies sub messages (send_each served messages s)).1

  more_served :
      (first : SubscriptionConfig) (subs : List SubscriptionConfig)
      (messages published : List Message) (ids : List String) (s s₁ : State)
      (answer : Reply (List String) × State)
      → send_copies first messages s ≡ (ok published, s₁)
      → IsComplete subs messages (first_ids ids (message_ids published)) s₁ answer
        ⊎ IsCutOff subs messages s₁ answer
      → IsComplete (first ∷ subs) messages ids s answer ⊎ IsCutOff (first ∷ subs) messages s answer
  more_served first subs messages published ids s s₁ answer e (inl c) = inl (record {
    answers = published ∷ c.answers;
    accepted = (ap (λ y. y.0) e, rw (ap (λ y. y.1) e) c.accepted);
    told = c.told;
    left = c.left ∙ ap (λ y. send_each subs messages y.1) (sym e);
  })
  more_served first subs messages published ids s s₁ answer e (inr c) = inr (record {
    served = first ∷ c.served;
    sub = c.sub;
    rest = c.rest;
    answers = published ∷ c.answers;
    error = c.error;
    whole = ap (λ l. first ∷ l) c.whole;
    accepted = (ap (λ y. y.0) e, rw (ap (λ y. y.1) e) c.accepted);
    refused = rw (ap (λ y. y.1) e) c.refused;
    told = c.told;
    left = rw (ap (λ y. y.1) e) c.left;
  })

  abbrev pub fan :
      List SubscriptionConfig → List Message → List String → State → Reply (List String) × State
  fan = fan_out backend encode_base64 new_id now instant

  fan_out-step :
      (first : SubscriptionConfig) (subs : List SubscriptionConfig) (messages : List Message)
      (ids : List String) (s : State) (x : Result (List Message) × State)
      → send_copies first messages s ≡ x
      → ((ids₁ : List String) (s₁ : State)
          → IsComplete subs messages ids₁ s₁ (fan subs messages ids₁ s₁)
            ⊎ IsCutOff subs messages s₁ (fan subs messages ids₁ s₁))
      → IsComplete
          (first ∷ subs)
          messages
          ids
          s
          (on_sent backend encode_base64 new_id now instant first.id ids x (fan subs messages))
        ⊎ IsCutOff
            (first ∷ subs)
            messages
            s
            (on_sent backend encode_base64 new_id now instant first.id ids x (fan subs messages))
  unfolding on_sent
  fan_out-step first subs messages ids s (ok published, s₁) e h =
      more_served first subs messages published ids s s₁ _ e (h _ s₁)
  fan_out-step first subs messages ids s (err refusal, s₁) e h = inr (record {
    served = [];
    sub = first;
    rest = subs;
    answers = [];
    error = refusal;
    whole = refl;
    accepted = refl;
    refused = ap (λ y. y.0) e;
    told = refl;
    left = sym (ap (λ y. y.1) e);
  })

  -- The fan-out of publish sends every subscription its copies, in order, each accepted by the
  -- backend, and succeeds with the IDs of the first answer that has any, or it stops at the first
  -- subscription that the backend refuses with an internal error: those before it have got their
  -- copies, which were accepted, and those behind it have not.
  pub fan_out-served :
      (subs : List SubscriptionConfig) (messages : List Message) (ids : List String) (s : State)
      → IsComplete subs messages ids s (fan subs messages ids s)
        ⊎ IsCutOff subs messages s (fan subs messages ids s)
  unfolding fan_out
  fan_out-served [] messages ids s =
      inl (record { answers = []; accepted = refl; told = refl; left = refl })
  fan_out-served (sub ∷ subs) messages ids s =
      fan_out-step sub subs messages ids s _ refl (λ ids₁ s₁. fan_out-served subs messages ids₁ s₁)
