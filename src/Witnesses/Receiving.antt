-- ===== src/Witnesses/Receiving.antt =====
-- The theorems on delivery, deletion and handles at concrete inputs.
use lclq.Common.{
  ℕ, ◌+◌, ◌≤◌, max, min, ◌≡◌, refl, ap, List, [], ◌∷◌, ◌++◌, none, some, length, reverse, eq_refl,
}
use lclq.Common.HashMap
use lclq.Common.HashMap.{HashMap, HasUniqueKeys}
use lclq.Error.{ok, err, invalid_receipt_handle}
use lclq.Storage.{ReceivedMessage}
use lclq.Receipt.{ReceiptHandleData, parse_receipt_handle}
use lclq.Receipt.Authentic.{Accepts, parse-generate_receipt_handle, parse_receipt_handle-Accepts}
use lclq.Memory.State.{QueueData, total_message_count, put_queue}
use lclq.Memory.InFlight.{delete_message}
use lclq.Memory.InFlight.Lifecycle.{delete_message_once}
use lclq.Memory.Receive.{
  receive_messages, take_visible, requeue_expired, count_requeued, expired_handles,
}
use lclq.Memory.Receive.Delivery.{TakesInOrder, take_visible-TakesInOrder}
use lclq.Memory.Receive.Tracking.{FreshNonces, TracksAll, take_visible-TracksAll}
use lclq.Memory.Receive.Expiry.{returned, still_in_flight, requeue_expired_lem}
use lclq.Memory.Receive.Contract.{
  refreshed, answer, receive_messages-in_order, length-receive_messages,
}
use lclq.Memory.Receive.Conservation.{dropped, total-receive_messages}
use lclq.Witnesses.Codec.{codec, write, read, read-write}
use lclq.Witnesses.Data.{
  orders, backend, options, readings, handle_of_first, first_in_flight, busy, busy_backend,
}

receive_messages-in_order_example :
    (receive_messages codec backend "orders" options readings).0
    ≡ answer codec backend "orders" options readings (some orders)
unfolding HashMap.get
receive_messages-in_order_example =
    receive_messages-in_order codec backend "orders" options readings

number_of : {i j : ℕ} → write (i ∷ []) ≡ write (j ∷ []) → i ≡ j
number_of {i} {j} h = cc (ap (read 0) h, read-write (i ∷ []), read-write (j ∷ []))

fresh : FreshNonces codec "orders" options readings orders
unfolding HashMap.get
fresh = record { distinct = λ i j h. number_of h; unused = λ i id. refl }

fresh_refreshed : FreshNonces codec "orders" options readings (refreshed readings orders)
unfolding HashMap.get requeue_expired expired_handles
fresh_refreshed = record { distinct = λ i j h. number_of h; unused = λ i id. refl }

take_visible-TracksAll_example :
    TracksAll codec "orders" options readings orders
      (take_visible codec orders "orders" options readings)
take_visible-TracksAll_example = take_visible-TracksAll codec "orders" options readings orders fresh

take_visible-TakesInOrder_example :
    TakesInOrder codec "orders" options readings orders
      (take_visible codec orders "orders" options readings)
take_visible-TakesInOrder_example = take_visible-TakesInOrder codec "orders" options readings orders

total-receive_messages_example :
    total_message_count (receive_messages codec backend "orders" options readings).1
      + dropped codec backend "orders" options readings orders
    ≡ total_message_count backend
unfolding HashMap.get
total-receive_messages_example =
    total-receive_messages codec backend "orders" options readings orders refl tt fresh_refreshed

abbrev received : List ReceivedMessage
received =
    reverse (take_visible codec (refreshed readings orders) "orders" options readings).received

receives_them :
    receive_messages codec backend "orders" options readings
    ≡ (ok received, (receive_messages codec backend "orders" options readings).1)
unfolding receive_messages HashMap.get
receives_them = refl

length-receive_messages_example : length received ≤ max 1 (min 5 10)
length-receive_messages_example =
    length-receive_messages codec backend
      (receive_messages codec backend "orders" options readings).1 "orders" options readings
      received receives_them

requeue_expired_lem_example :
    (requeue_expired 100 busy ≡ record busy {
      available_messages = [] ++ returned 100 busy.in_flight_messages;
      in_flight_messages = still_in_flight 100 busy.in_flight_messages;
    })
    × (count_requeued 100 busy (expired_handles 100 busy.in_flight_messages)
        ≡ length (returned 100 busy.in_flight_messages))
unfolding HashMap.get
requeue_expired_lem_example = requeue_expired_lem 100 busy (refl, tt)

abbrev idle : QueueData
idle = record busy { in_flight_messages = HashMap.remove handle_of_first busy.in_flight_messages }

delete_message_once_example :
    (delete_message codec busy_backend "orders" handle_of_first
      ≡ (ok tt, put_queue busy_backend "orders" idle))
    × (delete_message codec (put_queue busy_backend "orders" idle) "orders" handle_of_first ≡ (
      err invalid_receipt_handle,
      put_queue (put_queue busy_backend "orders" idle) "orders" idle,
    ))
unfolding HashMap.get
delete_message_once_example =
    delete_message_once codec busy_backend "orders" "m1" "n" busy first_in_flight refl
      (rw (eq_refl handle_of_first) refl)

abbrev first_data : ReceiptHandleData
first_data = record { queue_id = "orders"; message_id = "m1"; nonce = "n"; signature = none }

parse-generate_receipt_handle_example : parse_receipt_handle codec handle_of_first ≡ ok first_data
parse-generate_receipt_handle_example = parse-generate_receipt_handle codec "orders" "m1" "n"

parse_receipt_handle-Accepts_example : Accepts codec handle_of_first first_data
parse_receipt_handle-Accepts_example =
    parse_receipt_handle-Accepts codec handle_of_first first_data
      (parse-generate_receipt_handle codec "orders" "m1" "n")
