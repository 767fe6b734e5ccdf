-- ===== src/Queue.antt =====
-- internal/queue/queue.go: a buffered channel of job ids. A receiver that waits at an empty channel is
-- a receive right behind the send.
pub mod Order
use rojo.Base.{
  ℕ, ◌+◌, Bytes, Bool, true, false, List, [], ◌∷◌, ◌++◌, Option, none, some, bytes, length, ltb,
  leb, if◌then◌else◌,
}
use rojo.Errors.{Error, sentinel, queue_full}
use rojo.Orchestration.Env.{Call, returns, panics}

pub record Queue : Type 0 where
  pub capacity : ℕ
  pub items : List Bytes
  pub closed : Bool

-- New. A negative size, which the source takes for 1 as well, is not modelled.
unfoldable pub new_queue : ℕ → Queue
new_queue n = record { capacity = if leb n 0 then 1 else n; items = []; closed = false }

-- Enqueue: the send in a select with a default. A send on a closed channel panics.
unfoldable pub enqueue : Bytes → Queue → Call (Option Error) × Queue
enqueue id q =
    if q.closed
    then (panics (bytes "send on closed channel"), q)
    else if ltb (length q.items) q.capacity
    then (returns none, record q { items = q.items ++ id ∷ [] })
    else (returns (some (sentinel queue_full)), q)

-- What a receive on the channel of Dequeue sees: an id, the end of a closed channel, or nothing yet.
pub data Received : Type 0 where
  item : Bytes → Received
  ended waits : Received

abbrev pub receive_from : List Bytes → Queue → Received × Queue
receive_from [] q = (if q.closed then ended else waits, q)
receive_from (id ∷ ids) q = (item id, record q { items = ids })

unfoldable pub receive : Queue → Received × Queue
unfolding receive_from
receive q = receive_from q.items q

-- Close panics where the channel is closed already.
unfoldable pub close : Queue → Call (Unit {0}) × Queue
close q =
    if q.closed
    then (panics (bytes "close of closed channel"), q)
    else (returns tt, record q { closed = true })

unfoldable pub queue_length : Queue → ℕ
queue_length q = length q.items
