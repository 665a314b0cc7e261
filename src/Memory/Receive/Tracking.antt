-- ===== src/Memory/Receive/Tracking.antt =====
-- About `receive_messages` in storage/memory.rs: the messages in flight before and after a call.
use mathlib.Core.List.{Perm}
use lclq.Common.{
  ℕ, ◌+◌, ◌++◌, min, String, ◌≡◌, List, [], ◌∷◌, none, length, length-reverse, reverse, arith,
}
use lclq.Common.Predicates.{All}
use lclq.Common.HashMap
use lclq.Common.HashMap.{HashMap, get-insert, length-insert_new}
use lclq.Types.{ReceiveOptions}
use lclq.Receipt.{ReceiptCodec, generate_receipt_handle}
use lclq.Memory.State.{QueueData, held}
use lclq.Memory.Receive.Selection.{Indexed, allowance}
use lclq.Memory.Receive.Indices.{Apart, chosen-Apart, Apart-reverse, length-left_over-chosen}
use lclq.Memory.Receive.Removal.{deliver}
use lclq.Memory.Receive.Delivery.{
  deliver-received, deliver-dlq_moves, deliver-available, taken, expiry, remaining,
  take_visible-deliver,
}
use lclq.Memory.Receive.Handles.{
  IsTracked, length-results, handle_of, deliver-IsTracked, deliver-Perm, deliver-length,
}
use lclq.Memory.Receive.Contents.{
  waiting, flying, taken_contents, gone, left_over-Perm, reverse-Perm, regroup,
}
use lclq.Memory.Receive.{ReceiveReadings, Taking, take_visible, after_taking}

module _ (codec : ReceiptCodec) (queue_id : String) (options : ReceiveOptions)
    (r : ReceiveReadings) where
  -- The nonces of a call are new: they differ, and no handle made of one is in use.
  pub record FreshNonces (q : QueueData) : Type 0 where
    pub distinct : (i j : ℕ) → r.nonce i ≡ r.nonce j → i ≡ j
    pub unused :
        (i : ℕ) (id : String)
        → HashMap.get (generate_receipt_handle codec queue_id id (r.nonce i)) q.in_flight_messages
          ≡ none

  taken-Apart : (q : QueueData) → Apart (reverse (taken options r q))
  taken-Apart q = Apart-reverse (taken options r q) (chosen-Apart _ r.now 0 q.available_messages)

  -- All that one call does to the messages in flight.
  pub record TracksAll (q : QueueData) (t : Taking) : Type 0 where
    pub tracked : All (IsTracked (expiry options r q) t.in_flight) t.received
    pub same_messages :
        Perm
          (waiting t.available ++ gone t)
          (waiting q.available_messages ++ flying q.in_flight_messages)
    pub no_loss : held (after_taking q t) + length t.dlq_moves ≡ held q

  abbrev begin : QueueData → Taking
  begin q = record {
    available = remaining options r q;
    in_flight = q.in_flight_messages;
    dlq_moves = [];
    received = [];
  }

  tracked_lem :
      (q : QueueData)
      → FreshNonces q
      → All
          (IsTracked (expiry options r q) (take_visible codec q queue_id options r).in_flight)
          (take_visible codec q queue_id options r).received
  tracked_lem q f =
      rw
        (
          take_visible-deliver codec queue_id options r q,
          deliver-received codec queue_id q.config r.nonce (expiry options r q) (begin q)
              (reverse (taken options r q)),
        )
        (deliver-IsTracked codec queue_id q.config r.nonce (expiry options r q) f.distinct (begin q)
          (reverse (taken options r q)) (taken-Apart q))

  unused_lem :
      (q : QueueData) (xs : List Indexed)
      → FreshNonces q
      → All
          (λ e.
            HashMap.get
              (handle_of codec queue_id q.config r.nonce (expiry options r q) e)
              q.in_flight_messages
            ≡ none)
          xs
  unused_lem q [] f = tt
  unused_lem q ((i, m) ∷ xs) f = (f.unused i (m.message).id, unused_lem q xs f)

  no_loss_lem :
      (q : QueueData)
      → FreshNonces q
      → held (after_taking q (take_visible codec q queue_id options r))
          + length (take_visible codec q queue_id options r).dlq_moves
        ≡ held q
  no_loss_lem q f =
      let xs = reverse (taken options r q) in
      let t = begin q in
      rw
        (
          take_visible-deliver codec queue_id options r q,
          deliver-available codec queue_id q.config r.nonce (expiry options r q) t xs,
          deliver-dlq_moves codec queue_id q.config r.nonce (expiry options r q) t xs,
          deliver-length codec queue_id q.config r.nonce (expiry options r q) f.distinct t xs
              (taken-Apart q) (unused_lem q xs f),
        )
        (omega (
          arith,
          length-left_over-chosen (allowance (min options.max_messages 10)) r.now 0
              q.available_messages,
          length-results codec queue_id q.config r.nonce (expiry options r q) xs,
          length-reverse (taken options r q),
        ))

  same_messages_lem :
      (q : QueueData)
      → FreshNonces q
      → let t = take_visible codec q queue_id options r in
        Perm
          (waiting t.available ++ gone t)
          (waiting q.available_messages ++ flying q.in_flight_messages)
  same_messages_lem q f =
      let xs = reverse (taken options r q) in
      let t = begin q in
      rw
        (
          take_visible-deliver codec queue_id options r q,
          deliver-available codec queue_id q.config r.nonce (expiry options r q) t xs,
        )
        (regroup (waiting (remaining options r q)) (taken_contents xs)
          (taken_contents (taken options r q)) (waiting q.available_messages)
          (flying q.in_flight_messages)
          (gone (deliver codec queue_id q.config (expiry options r q) r.nonce t xs))
          (deliver-Perm codec queue_id q.config r.nonce (expiry options r q) f.distinct t xs
            (taken-Apart q) (unused_lem q xs f))
          (reverse-Perm (taken options r q))
          (left_over-Perm (allowance (min options.max_messages 10)) r.now 0 q.available_messages))

  -- With fresh nonces every message that the loop of receive_messages hands out is in flight under
  -- its handle with the expiry of the call, and the messages that are then available, in flight or
  -- among the moves to the dead letter queue are those that were available or in flight before,
  -- each as often as then, but for their order and their receive counts.
  pub take_visible-TracksAll :
      (q : QueueData) → FreshNonces q → TracksAll q (take_visible codec q queue_id options r)
  take_visible-TracksAll q f = record {
    tracked = tracked_lem q f;
    no_loss = no_loss_lem q f;
    same_messages = same_messages_lem q f;
  }
