-- ===== src/Memory/Receive/Delivery.antt =====
-- About `receive_messages` in storage/memory.rs: what is handed out, what goes to the dead letter
-- queue and what stays, as one pass over the queue.
use mathlib.Core.List.{append_assoc, append-nil, reverse-cons, reverse-append}
use lclq.Common.{
  ℕ, ◌+◌, min, String, ◌≡◌, refl, sym, ap, ◌∙◌, List, [], ◌∷◌, ◌++◌, Option, none, some, unwrap_or,
  reverse, arith,
}
use lclq.Types.{DateTime, Message, QueueConfig, ReceiveOptions, seconds}
use lclq.Storage.{ReceivedMessage}
use lclq.Receipt.{ReceiptCodec, generate_receipt_handle}
use lclq.Memory.State.{StoredMessage, QueueData}
use lclq.Memory.Receive.Selection.{Indexed, chosen, left_over, allowance, visible_indices-chosen}
use lclq.Memory.Receive.Removal.{deliver, take_indices-chosen}
use lclq.Memory.Receive.{dlq_target, ReceiveReadings, Taking, delivered, take_message, take_visible}

module _ {ℓ κ} {A : Type ℓ} {B : Type κ} (f : A → Option B) where
  -- The results of the entries that have one, in order.
  abbrev pub results : List A → List B
  results [] = []
  results (x ∷ xs) = elim (f x) [ none ↦ results xs | some y ↦ y ∷ results xs ]

  results-append : (xs ys : List A) → results (xs ++ ys) ≡ results xs ++ results ys
  results-append [] ys = refl
  results-append (x ∷ xs) ys = ground (arith, results-append xs ys)

  results_one : (x : A) → reverse (results (x ∷ [])) ≡ results (x ∷ [])
  results_one x = ground arith

  reverse-results : (xs : List A) → reverse (results (reverse xs)) ≡ results xs
  reverse-results [] = refl
  reverse-results (x ∷ xs) =
      rw (reverse-cons x xs, results-append (reverse xs) (x ∷ []))
        (reverse-append (results (reverse xs)) (results (x ∷ []))
          ∙ ap (λ ys. reverse (results (x ∷ [])) ++ ys) (reverse-results xs)
          ∙ ap (λ ys. ys ++ results xs) (results_one x)
          ∙ sym (results-append (x ∷ []) xs))

module _ (codec : ReceiptCodec) (queue_id : String) (config : QueueConfig)
    (nonce : ℕ → String) where
  -- What a chosen message is to the caller, or to the dead letter queue.
  abbrev pub handed_out_as : Indexed → Option ReceivedMessage
  handed_out_as (i, m) = elim (dlq_target config (delivered m)) [
    | some target ↦ none
    | none ↦ some (record {
      message = delivered m;
      receipt_handle = generate_receipt_handle codec queue_id (m.message).id (nonce i);
    })
  ]

  abbrev pub dead_letter_as : Indexed → Option (String × Message)
  dead_letter_as (i, m) = elim (dlq_target config (delivered m)) [
    | some target ↦ some (target, delivered m)
    | none ↦ none
  ]

  -- One delivery adds one entry to one of the two lists.
  take_message-received :
      (expires : DateTime) (i : ℕ) (m : StoredMessage) (t : Taking)
      → (take_message codec queue_id config expires (nonce i) (delivered m) t).received
        ≡ t.received ++ results handed_out_as ((i, m) ∷ [])
  unfolding take_message
  take_message-received expires i m t = ground (arith, append-nil t.received)

  take_message-dlq_moves :
      (expires : DateTime) (i : ℕ) (m : StoredMessage) (t : Taking)
      → (take_message codec queue_id config expires (nonce i) (delivered m) t).dlq_moves
        ≡ t.dlq_moves ++ results dead_letter_as ((i, m) ∷ [])
  unfolding take_message
  take_message-dlq_moves expires i m t = ground (arith, append-nil t.dlq_moves)

  take_message-available :
      (expires : DateTime) (i : ℕ) (m : StoredMessage) (t : Taking)
      → (take_message codec queue_id config expires (nonce i) (delivered m) t).available
        ≡ t.available
  unfolding take_message
  take_message-available expires i m t = ground arith

  pub deliver-received :
      (expires : DateTime) (t : Taking) (xs : List Indexed)
      → (deliver codec queue_id config expires nonce t xs).received
        ≡ t.received ++ results handed_out_as xs
  unfolding deliver
  deliver-received expires t [] = sym (append-nil t.received)
  deliver-received expires t ((i, m) ∷ xs) =
      let t' = take_message codec queue_id config expires (nonce i) (delivered m) t in
      deliver-received expires t' xs
      ∙ ap (λ ys. ys ++ results handed_out_as xs) (take_message-received expires i m t)
      ∙ append_assoc t.received (results handed_out_as ((i, m) ∷ [])) (results handed_out_as xs)
      ∙ ap (◌++◌ t.received) (sym (results-append handed_out_as ((i, m) ∷ []) xs))

  pub deliver-dlq_moves :
      (expires : DateTime) (t : Taking) (xs : List Indexed)
      → (deliver codec queue_id config expires nonce t xs).dlq_moves
        ≡ t.dlq_moves ++ results dead_letter_as xs
  unfolding deliver
  deliver-dlq_moves expires t [] = sym (append-nil t.dlq_moves)
  deliver-dlq_moves expires t ((i, m) ∷ xs) =
      let t' = take_message codec queue_id config expires (nonce i) (delivered m) t in
      deliver-dlq_moves expires t' xs
      ∙ ap (λ ys. ys ++ results dead_letter_as xs) (take_message-dlq_moves expires i m t)
      ∙ append_assoc t.dlq_moves (results dead_letter_as ((i, m) ∷ [])) (results dead_letter_as xs)
      ∙ ap (◌++◌ t.dlq_moves) (sym (results-append dead_letter_as ((i, m) ∷ []) xs))

  pub deliver-available :
      (expires : DateTime) (t : Taking) (xs : List Indexed)
      → (deliver codec queue_id config expires nonce t xs).available ≡ t.available
  unfolding deliver
  deliver-available expires t [] = refl
  deliver-available expires t ((i, m) ∷ xs) =
      let t' = take_message codec queue_id config expires (nonce i) (delivered m) t in
      deliver-available expires t' xs ∙ take_message-available expires i m t

module _ (options : ReceiveOptions) (r : ReceiveReadings) where
  -- The messages that a call takes from a queue, with their indices.
  abbrev pub taken : QueueData → List Indexed
  taken q = chosen (allowance (min options.max_messages 10)) r.now 0 q.available_messages

  abbrev pub expiry : QueueData → DateTime
  expiry q = r.now + seconds (unwrap_or options.visibility_timeout (q.config).visibility_timeout)

  abbrev start : QueueData → Taking
  start q = record {
    available = q.available_messages;
    in_flight = q.in_flight_messages;
    dlq_moves = [];
    received = [];
  }

  abbrev pub remaining : QueueData → List StoredMessage
  remaining q = left_over (allowance (min options.max_messages 10)) r.now q.available_messages

module _ (codec : ReceiptCodec) (queue_id : String) (options : ReceiveOptions)
    (r : ReceiveReadings) where
  -- The loops amount to the deliveries of the chosen messages, the last one first.
  pub take_visible-deliver :
      (q : QueueData)
      → take_visible codec q queue_id options r
        ≡ deliver codec queue_id q.config
            (expiry options r q)
            r.nonce
            (record (start options r q) { available = remaining options r q })
            (reverse (taken options r q))
  unfolding take_visible
  take_visible-deliver q =
      rw (visible_indices-chosen (min options.max_messages 10) r.now q.available_messages) (
        take_indices-chosen codec queue_id q.config (expiry options r q) r.nonce
          (allowance (min options.max_messages 10)) r.now (start options r q) []
          q.available_messages)

  -- What one call makes of the queue, by one pass over it from the front.
  pub record TakesInOrder (q : QueueData) (t : Taking) : Type 0 where
    pub stays : t.available ≡ remaining options r q
    pub handed_out :
        reverse t.received
        ≡ results (handed_out_as codec queue_id q.config r.nonce) (taken options r q)
    pub dead_letters :
        reverse t.dlq_moves
        ≡ results (dead_letter_as codec queue_id q.config r.nonce) (taken options r q)

  -- The loops of receive_messages (collect indices, remove from the back, reverse) come to one
  -- pass over the queue from the front: what stays, what is handed out in order, and the dead
  -- letters, which are collected in reverse order.
  pub take_visible-TakesInOrder :
      (q : QueueData) → TakesInOrder q (take_visible codec q queue_id options r)
  take_visible-TakesInOrder q = rw (take_visible-deliver q) (record {
    stays = deliver-available codec queue_id q.config r.nonce (expiry options r q) _ _;
    handed_out =
        ap reverse (deliver-received codec queue_id q.config r.nonce (expiry options r q) _ _)
        ∙ reverse-results _ (taken options r q);
    dead_letters =
        ap reverse (deliver-dlq_moves codec queue_id q.config r.nonce (expiry options r q) _ _)
        ∙ reverse-results _ (taken options r q);
  })
