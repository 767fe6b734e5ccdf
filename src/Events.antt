-- ===== src/Events.antt =====
-- internal/events/events.go and store.go: the bus of the process, and the bus that stores an event
-- before it is delivered. The lock of the bus makes each of its operations one step.
pub mod Stored
use rojo.Base.{
  ℕ, ◌+◌, zero, suc, Bytes, Bool, true, false, ◌&&◌, ◌==◌, List, [], ◌∷◌, ◌++◌, Option, none, some,
  bytes, bytes_eq, length, leb, if◌then◌else◌,
}
use rojo.Errors.{Error, wrap}
use rojo.Orchestration.Env.{Event, Call, returns, panics}

-- Subscription: its channel is the events that wait in it, `room` at most; `listed` says that the map
-- of the bus has it.
pub record Subscription : Type 0 where
  pub job_id : Bytes
  pub room : ℕ
  pub pending : List Event
  pub listed : Bool
  pub closed : Bool

-- stamp; 0 is the zero time.
unfoldable pub stamp : ℕ → Event → Event
stamp now e = if e.created_at == 0 then record e { created_at = now } else e

-- The non-blocking send to one subscriber: its channel, and the drops.
unfoldable pub offer : Event → Subscription → Subscription × ℕ
offer e s =
    if leb s.room (length s.pending)
    then (s, 1)
    else (record s { pending = s.pending ++ e ∷ [] }, 0)

-- A send on a closed channel panics.
unfoldable pub send : Event → Subscription → Call (Subscription × ℕ)
unfolding bytes
send e s = if s.closed then panics (bytes "send on closed channel") else returns (offer e s)

-- The loop of Publish over the subscribers, under the lock.
unfoldable pub deliver : Event → List Subscription → Call (List Subscription × ℕ)
deliver e [] = returns ([], 0)
deliver e (s ∷ ss) =
    let rest = deliver e ss in
    if s.listed && bytes_eq s.job_id e.job_id
    then elim (send e s) [
      | panics v ↦ panics v
      | returns (t, n) ↦ elim rest [
        | panics v ↦ panics v
        | returns (ts, drops) ↦ returns (t ∷ ts, n + drops)
      ]
    ]
    else elim rest [ panics v ↦ panics v | returns (ts, drops) ↦ returns (s ∷ ts, drops) ]

-- Subscribe; a buffer that is not positive is 0 here.
unfoldable pub subscribe : Bytes → ℕ → List Subscription → List Subscription
subscribe job buffer ss =
    ss
    ++ record {
      job_id = job;
      room = if buffer == 0 then 16 else buffer;
      pending = [];
      listed = true;
      closed = false;
    }
      ∷ []

-- Unsubscribe of the subscription at an index.
unfoldable pub unsubscribe : ℕ → List Subscription → List Subscription
unsubscribe i [] = []
unsubscribe zero (s ∷ ss) = record s { listed = false; closed = true } ∷ ss
unsubscribe (suc i) (s ∷ ss) = s ∷ unsubscribe i ss

-- The receiver at the other end of a channel takes the event that waits longest.
unfoldable pub take_from : Subscription → List Event → Option Event × Subscription
take_from s [] = (none, s)
take_from s (e ∷ es) = (some e, record s { pending = es })

unfoldable pub receive : ℕ → List Subscription → Option Event × List Subscription
unfolding take_from
receive i [] = (none, [])
receive zero (s ∷ ss) = let (e, t) = take_from s s.pending in (e, t ∷ ss)
receive (suc i) (s ∷ ss) = let (e, ts) = receive i ss in (e, s ∷ ts)

-- The store as internal/storage/filestore has it: `history` is the events that History answers with, of all jobs,
-- and `torn` the jobs whose log ends in a torn line, as a crash or an Append that failed half-way
-- leaves it. `swallowed` is the acknowledged events that History cannot read, since their line was
-- written behind a torn one. Then the subscriptions, and what the receivers have taken.
pub record System : Type 0 where
  pub history : List Event
  pub torn : Bytes → Bool
  pub swallowed : List Event
  pub subs : List Subscription
  pub received : List Event

-- What Append came to: success, an error before a byte was written, or one in the middle of a line.
pub data Appended : Type 0 where
  kept : Appended
  refused : Error → Appended
  tore : Error → Appended

abbrev pub with_torn : Bytes → Bool → (Bytes → Bool) → Bytes → Bool
with_torn job t torn id = if bytes_eq job id then t else torn id

-- An acknowledged Append: behind a torn line the event is read as a part of it, and the newline at its
-- end makes the log whole again.
unfoldable pub keep_event : Event → System → System
keep_event e s = elim (s.torn e.job_id) [
  | false ↦ record s { history = s.history ++ e ∷ [] }
  | true ↦ record s { torn = with_torn e.job_id false s.torn; swallowed = s.swallowed ++ e ∷ [] }
]

-- Publish of PersistingBus; `what` is the text of its error.
unfoldable pub publish : Appended → Bytes → ℕ → Event → System → Call (Option Error) × System
publish (refused fault) what now e s = (returns (some (wrap what fault [])), s)
publish (tore fault) what now e s =
    (returns (some (wrap what fault [])), record s { torn = with_torn e.job_id true s.torn })
publish kept what now e s =
    let stored = stamp now e in
    let s1 = keep_event stored s in
    elim (deliver stored s.subs) [
      | panics v ↦ (panics v, s1)
      | returns (subs, drops) ↦ (returns none, record s1 { subs = subs })
    ]

-- A receiver takes an event.
unfoldable pub take_event : ℕ → System → System
take_event i s =
    let (e, subs) = receive i s.subs in
    elim e [ none ↦ s | some x ↦ record s { subs = subs; received = s.received ++ x ∷ [] } ]
