-- ===== src/Workers/Drained.antt =====
-- About internal/worker/pool.go: the accounts of the pool.
use rojo.Base.{
  occurrences, occurrences-append, ℕ, zero, suc, ◌+◌, ◌*◌, ◌<◌, Bytes, true, false, List, [], ◌∷◌,
  ◌++◌, Option, none, some, ◌≡◌, refl, sym, ap, ◌∙◌, arith, bytes_eq, if◌then◌else◌,
}
use rojo.Errors.{Error}
use rojo.Orchestration.Env.{Call, returns, panics}
use rojo.Queue.{Queue, new_queue, enqueue, close, receive, receive_from, item, ended}
use rojo.Workers.{
  Worker, selecting, stopped, processing, new_pool, start, after_process, Pool, WorkerStep, takes,
  finishes, stops, quits, Life, born, works, enqueues, closes, cancels,
}

-- The workers that run the job of an id.
abbrev pub busy : Bytes → Worker → ℕ
busy id selecting = 0
busy id stopped = 0
busy id (processing j) = if bytes_eq j id then 1 else 0

abbrev pub total : (Worker → ℕ) → List Worker → ℕ
total f [] = 0
total f (w ∷ ws) = f w + total f ws

total-middle :
    (f : Worker → ℕ) (xs : List Worker) (w : Worker) (ys : List Worker)
    → total f (xs ++ w ∷ ys) ≡ f w + (total f xs + total f ys)
total-middle f [] w ys = omega arith
total-middle f (x ∷ xs) w ys = omega (arith, total-middle f xs w ys)

-- One worker goes on to another state.
pub changed :
    (f : Worker → ℕ) (ws xs : List Worker) (v w : Worker) (ys : List Worker)
    → ws ≡ xs ++ v ∷ ys
    → total f (xs ++ w ∷ ys) + f v ≡ total f ws + f w
changed f ws xs v w ys e =
    omega (arith, ap (total f) e, total-middle f xs v ys, total-middle f xs w ys)

-- A worker that has returned, every worker, and the steps that a worker still needs.
abbrev pub at_rest : Worker → ℕ
at_rest selecting = 0
at_rest stopped = 1
at_rest (processing j) = 0

abbrev pub each : Worker → ℕ
each w = 1

abbrev pub needs : Worker → ℕ
needs selecting = 1
needs stopped = 0
needs (processing j) = 2

pub after_process-selects : (r : Call (Option Error)) → after_process r ≡ selecting
unfolding after_process
after_process-selects (returns none) = refl
after_process-selects (returns (some e)) = refl
after_process-selects (panics v) = refl

-- What a receive shows.
received_from :
    (q : Queue) (l : List Bytes) (id : Bytes)
    → (receive_from l q).0 ≡ item id
    → (l ≡ id ∷ (receive_from l q).1.items) × ((receive_from l q).1.closed ≡ q.closed)
received_from q [] id h = absurd (ground arith)
received_from q (x ∷ xs) id h = (cc, refl)

pub received :
    (q : Queue) (id : Bytes)
    → (receive q).0 ≡ item id
    → (q.items ≡ id ∷ (receive q).1.items) × ((receive q).1.closed ≡ q.closed)
unfolding receive
received q id h = received_from q q.items id h

end_from :
    (q : Queue) (l : List Bytes) → (receive_from l q).0 ≡ ended → (l ≡ []) × (q.closed ≡ true)
end_from q [] h = (refl, ground arith)
end_from q (x ∷ xs) h = absurd (ground arith)

at_end : (q : Queue) → (receive q).0 ≡ ended → (q.items ≡ []) × (q.closed ≡ true)
unfolding receive
at_end q h = end_from q q.items h

accepts_one :
    (q : Queue) (id : Bytes)
    → (enqueue id q).0 ≡ returns none
    → ((enqueue id q).1.items ≡ q.items ++ id ∷ []) × (q.closed ≡ false)
unfolding enqueue
accepts_one q id h = ground arith

close-items : (q : Queue) → ((close q).1.items ≡ q.items) × ((close q).1.closed ≡ true)
unfolding close
close-items q = ground arith

-- The accounts of a pool: an accepted id is done, in flight or waiting, and a worker that has returned
-- without the context's end has seen the end of the queue.
pub record IsCounted (size : ℕ) (p : Pool) : Type 0 where
  pub counted :
      (id : Bytes)
      → occurrences id p.accepted
        ≡ occurrences id p.done + (total (busy id) p.workers + occurrences id p.queue.items)
  pub ended_at :
      p.cancelled ≡ false
      → 0 < total at_rest p.workers
      → (p.queue.items ≡ []) × (p.queue.closed ≡ true)
  pub manned : total each p.workers ≡ new_pool size

step-IsCounted : {size : ℕ} {p q : Pool} → WorkerStep p q → IsCounted size p → IsCounted size q
step-IsCounted (takes p xs ys id e h) i =
    let (items, closed) = received p.queue id h in
    let now = λ (f : Worker → ℕ). changed f p.workers xs selecting (processing id) ys e in
    record {
      counted = λ j. omega (arith, i.counted j, now (busy j), ap (occurrences j) items);
      ended_at = λ c r.
          let (none', _) = i.ended_at c (omega (arith, r, now at_rest)) in
          absurd (let x : [] ≡ id ∷ (receive p.queue).1.items = sym none' ∙ items in cc);
      manned = omega (arith, i.manned, now each);
    }
step-IsCounted (finishes p xs ys id r e) i =
    let now = λ (f : Worker → ℕ). changed f p.workers xs (processing id) (after_process r) ys e in
    let selects = λ (f : Worker → ℕ). ap f (after_process-selects r) in
    record {
      counted = λ j. omega (arith, i.counted j, now (busy j), selects (busy j));
      ended_at = λ c k. i.ended_at c (omega (arith, k, now at_rest, selects at_rest));
      manned = omega (arith, i.manned, now each, selects each);
    }
step-IsCounted (stops p xs ys e h) i =
    let now = λ (f : Worker → ℕ). changed f p.workers xs selecting stopped ys e in
    record {
      counted = λ j. omega (arith, i.counted j, now (busy j));
      ended_at = λ c k. at_end p.queue h;
      manned = omega (arith, i.manned, now each);
    }
step-IsCounted (quits p xs ys e c) i =
    let now = λ (f : Worker → ℕ). changed f p.workers xs selecting stopped ys e in
    record {
      counted = λ j. omega (arith, i.counted j, now (busy j));
      ended_at = λ n k. absurd (let x : true ≡ false = sym c ∙ n in cc);
      manned = omega (arith, i.manned, now each);
    }

start-total : (f : Worker → ℕ) (n : ℕ) → total f (start n) ≡ n * f selecting
unfolding start
start-total f zero = omega arith
start-total f (suc n) = grind (arith, start-total f n)

pub Life-IsCounted : {size places : ℕ} {p : Pool} → Life size places p → IsCounted size p
unfolding new_queue
Life-IsCounted {size} born =
    let at = λ (f : Worker → ℕ). start-total f (new_pool size) in
    record {
      counted = λ id. omega (arith, at (busy id));
      ended_at = λ c k. absurd (omega (arith, k, at at_rest));
      manned = omega (arith, at each);
    }
Life-IsCounted (works l s) = step-IsCounted s (Life-IsCounted l)
Life-IsCounted (enqueues {p} id l h) =
    let i = Life-IsCounted l in
    let (items, opened) = accepts_one p.queue id h in
    record {
      counted = λ j. omega (
        arith,
        i.counted j,
        ap (occurrences j) items,
        occurrences-append j p.queue.items (id ∷ []),
      );
      ended_at = λ c k.
          let (_, closed) = i.ended_at c k in
          absurd (let x : true ≡ false = sym closed ∙ opened in cc);
      manned = i.manned;
    }
Life-IsCounted (closes {p} l) =
    let i = Life-IsCounted l in
    let (items, closed) = close-items p.queue in
    record {
      counted = λ j. omega (arith, i.counted j, ap (occurrences j) items);
      ended_at = λ c k. (items ∙ (i.ended_at c k).0, closed);
      manned = i.manned;
    }
Life-IsCounted (cancels {p} l) =
    let i = Life-IsCounted l in
    record { counted = i.counted; ended_at = λ c k. absurd (cc); manned = i.manned }
