-- ===== src/Examples/Workers.antt =====
-- The theorem about the workers, at a pool of two with one job.
use rojo.Base.{◌+◌, ◌≤◌, Bytes, true, false, [], ◌∷◌, none, ◌≡◌, ◌⊎◌, refl, bytes}
use rojo.Orchestration.Env.{returns}
use rojo.Queue.{new_queue, enqueue, close}
use rojo.Workers.{Pool, WorkerStep, Life, born, enqueues, closes, new_pool, start}
use rojo.Base.{occurrences}
use rojo.Workers.Finishes.{AllStopped, work, here, closed-drains}

abbrev drawn : Pool
drawn = record {
  workers = start (new_pool 2);
  queue = (close (enqueue (bytes "a") (new_queue 4)).1).1;
  cancelled = false;
  accepted = bytes "a" ∷ [];
  done = [];
}

taken : (enqueue (bytes "a") (new_queue 4)).0 ≡ returns none
unfolding enqueue new_queue
taken = refl

drawn-Life : Life 2 4 drawn
drawn-Life = closes (enqueues (bytes "a") born taken)

drawn-closed : drawn.queue.closed ≡ true
unfolding close enqueue new_queue bytes
drawn-closed = refl

drawn-live : drawn.cancelled ≡ false
drawn-live = refl

closed-drains_example :
    (0 + work drawn ≤ work drawn)
    × (AllStopped drawn ⊎ ((r : Pool) × WorkerStep drawn r))
    × (AllStopped drawn → (id : Bytes) → occurrences id drawn.accepted ≡ occurrences id drawn.done)
closed-drains_example = closed-drains drawn drawn-Life drawn-closed drawn-live 0 drawn here
