-- ===== src/Memory/Totals.antt =====
-- The number of messages that the in-memory backend holds, over changes of one queue.
use lclq.Common.{◌+◌, ◌≤◌, String, ◌≡◌, none, some, [], ◌∷◌, arith}
use lclq.Common.HashMap
use lclq.Common.HashMap.{HashMap}
use lclq.Memory.State.{QueueData, held, sum_held}

-- The total changes as the one queue does.
pub sum_held-insert :
    (k : String) (q q' : QueueData) (m : HashMap QueueData)
    → HashMap.get k m ≡ some q
    → sum_held (HashMap.insert k q' m) + held q ≡ sum_held m + held q'
unfolding HashMap.get HashMap.insert
sum_held-insert k q q' [] h = cc
sum_held-insert k q q' ((j, w) ∷ m) h = ground (arith, sum_held-insert k q q' m)

pub sum_held-insert_new :
    (k : String) (q' : QueueData) (m : HashMap QueueData)
    → HashMap.get k m ≡ none
    → sum_held (HashMap.insert k q' m) ≡ sum_held m + held q'
unfolding HashMap.get HashMap.insert
sum_held-insert_new k q' [] h = omega arith
sum_held-insert_new k q' ((j, w) ∷ m) h = ground (arith, sum_held-insert_new k q' m)

pub held-le-sum_held :
    (k : String) (q : QueueData) (m : HashMap QueueData)
    → HashMap.get k m ≡ some q
    → held q ≤ sum_held m
unfolding HashMap.get
held-le-sum_held k q [] h = cc
held-le-sum_held k q ((j, w) ∷ m) h = ground (arith, held-le-sum_held k q m)
