-- ===== src/Workers.antt =====
-- internal/worker/pool.go: the workers over the queue. A worker's select is a step: which of the ready
-- cases it takes, and which worker is next, is left open.
pub mod Drained
pub mod Finishes
use rojo.Base.{
  ℕ, zero, suc, ◌≡◌, Bytes, Bool, true, false, List, [], ◌∷◌, ◌++◌, Option, none, some, leb,
  if◌then◌else◌,
}
use rojo.Errors.{Error}
use rojo.Orchestration.Env.{Call, returns, panics}
use rojo.Queue.{Queue, new_queue, enqueue, close, receive, item, ended}

-- NewPool. A negative size, which the source takes for 1 as well, is not modelled.
unfoldable pub new_pool : ℕ → ℕ
new_pool size = if leb size 0 then 1 else size

-- What a worker is doing: it selects, it has a job, or it has returned.
pub data Worker : Type 0 where
  selecting stopped : Worker
  processing : Bytes → Worker

-- Start
unfoldable pub start : ℕ → List Worker
start zero = []
start (suc n) = selecting ∷ start n

-- What a worker does behind a call of Processor.Process: process logs its error and recovers its panic,
-- and the loop goes on.
unfoldable pub after_process : Call (Option Error) → Worker
after_process (returns none) = selecting
after_process (returns (some e)) = selecting
after_process (panics v) = selecting

-- The pool with its queue: the ids that Enqueue has accepted and those whose jobs have been run to the
-- end of Process; `cancelled` is the context of Start.
pub record Pool : Type 0 where
  pub workers : List Worker
  pub queue : Queue
  pub cancelled : Bool
  pub accepted : List Bytes
  pub done : List Bytes

-- The steps of one of the workers, which stands between others.
pub data WorkerStep : Pool → Pool → Type 0 where
  takes :
      (p : Pool) (before behind : List Worker) (id : Bytes)
      → p.workers ≡ before ++ selecting ∷ behind
      → (receive p.queue).0 ≡ item id
      → WorkerStep p
          (record p { workers = before ++ processing id ∷ behind; queue = (receive p.queue).1 })
  finishes :
      (p : Pool) (before behind : List Worker) (id : Bytes) (r : Call (Option Error))
      → p.workers ≡ before ++ processing id ∷ behind
      → WorkerStep p (record p { workers = before ++ after_process r ∷ behind; done = id ∷ p.done })
  stops :
      (p : Pool) (before behind : List Worker)
      → p.workers ≡ before ++ selecting ∷ behind
      → (receive p.queue).0 ≡ ended
      → WorkerStep p (record p { workers = before ++ stopped ∷ behind })
  quits :
      (p : Pool) (before behind : List Worker)
      → p.workers ≡ before ++ selecting ∷ behind
      → p.cancelled ≡ true
      → WorkerStep p (record p { workers = before ++ stopped ∷ behind })

-- A pool that was made by NewPool and Start over New of the queue, whatever has happened since.
pub data Life (size places : ℕ) : Pool → Type 0 where
  born : Life size places (record {
    workers = start (new_pool size);
    queue = new_queue places;
    cancelled = false;
    accepted = [];
    done = [];
  })
  works : {p q : Pool} → Life size places p → WorkerStep p q → Life size places q
  enqueues :
      {p : Pool} (id : Bytes)
      → Life size places p
      → (enqueue id p.queue).0 ≡ returns none
      → Life size places (record p { queue = (enqueue id p.queue).1; accepted = id ∷ p.accepted })
  closes :
      {p : Pool} → Life size places p → Life size places (record p { queue = (close p.queue).1 })
  cancels : {p : Pool} → Life size places p → Life size places (record p { cancelled = true })
