-- ===== src/Api/Service.antt =====
-- The handlers of internal/api/jobs.go over the repository in memory, the queue, and a bus that takes
-- every event of a creation.
pub mod Submitted
use rojo.Base.{ℕ, ◌+◌, Bytes, List, ◌∷◌, Option, none, some}
use rojo.Errors.{Error, Result}
use rojo.Jobs.Status.{Job, queued}
use rojo.Jobs.Request.{NewJobRequest}
use rojo.Jobs.Repository
use rojo.Jobs.Repository.{Repository}
use rojo.Orchestration.Env.{Call}
use rojo.Queue.{Queue}
use rojo.Queue
use rojo.Api.Handlers.{Collaborators}

-- `tick` counts the readings of the clock and of crypto/rand; `announced` are the ids whose event of
-- creation was published.
pub record Service : Type 0 where
  pub repo : Repository
  pub queue : Queue
  pub announced : List Bytes
  pub tick : ℕ

-- The collaborators of the handlers, over the times and the random bytes that will be read.
unfoldable pub service : (ℕ → ℕ) → (ℕ → Bytes) → Collaborators Service
service times seeds = record {
  create_job = λ j s. let (e, r) = Repository.create j s.repo in (e, record s { repo = r });
  get_job = λ id s. (Repository.get id s.repo, s);
  update_job = λ j s. let (e, r) = Repository.update j s.repo in (e, record s { repo = r });
  list_jobs = λ s. (Result.ok (Repository.list_jobs s.repo), s);
  enqueue = some (λ id s. let (e, q) = Queue.enqueue id s.queue in (e, record s { queue = q }));
  cancel = none;
  publish = some (λ id s. record s { announced = id ∷ s.announced });
  history = none;
  artifact = none;
  now = λ s. (times s.tick, record s { tick = s.tick + 1 });
  random = λ s. (seeds s.tick, record s { tick = s.tick + 1 });
  quote = λ b. b;
}
