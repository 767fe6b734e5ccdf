-- ===== src/Api/Service/Submitted.antt =====
-- About Create of internal/api/jobs.go: what a submission leaves in the repository and in the queue.
use rojo.Base.{
  Bool, Bool-cases, found, is_some, inl, inr, ℕ, ◌+◌, ◌≤◌, ◌<◌, Bytes, Bool, Bool-cases, true,
  false, [], ◌∷◌, ◌++◌, Option, none, some, ◌≡◌, refl, sym, ap, ◌∙◌, inl, inr, arith, found, bytes,
  bytes_eq_self, hex_encode, length, ltb, is_some,
}
use rojo.Errors.{Error, sentinel, job_already_exists, queue_full}
use rojo.Jobs.Status.{Job, queued, failed, transition, can_transition}
use rojo.Jobs.Request.{NewJobRequest}
use rojo.Jobs.Repository.{find_job, replace_job, create, update}
use rojo.Orchestration.Env.{Call, returns, panics}
use rojo.Queue.{enqueue}
use rojo.Api.Response.{Response, write_json, write_json_error, job_body}
use rojo.Api.Handlers.{submit, enqueue_job, announce_job, refuse_job, new_id}
use rojo.Api.Service.{Service, service}

module _ (times : ℕ → ℕ) (seeds : ℕ → Bytes) (req : NewJobRequest) (s : Service) where
  -- The job that a submission makes.
  abbrev pub submitted : Job
  submitted = record {
    id = hex_encode (seeds (s.tick + 1));
    task = req.task;
    repo_path = req.repo_path;
    status = queued;
    created_at = times s.tick;
    updated_at = times s.tick;
  }

  abbrev pub stored_as : Job → Service
  stored_as j = record s { repo = j ∷ s.repo; tick = s.tick + 1 + 1 }

  abbrev pub refused : Job
  refused = record submitted { status = failed; updated_at = times (s.tick + 1 + 1) }

  creates :
      find_job submitted.id s.repo ≡ none → create submitted s.repo ≡ (none, submitted ∷ s.repo)
  unfolding create
  creates new = rw (create, new) refl

  exists :
      (k : Job)
      → find_job submitted.id s.repo ≡ some k
      → create submitted s.repo ≡ (some (sentinel job_already_exists), s.repo)
  unfolding create
  exists k old = rw (create, old) refl

  submit-enqueues :
      find_job submitted.id s.repo ≡ none
      → submit (service times seeds) req s
        ≡ enqueue_job (service times seeds) submitted (stored_as submitted)
  unfolding submit service new_id
  submit-enqueues new = rw (submit, creates new) (rw (creates new) refl)

  enqueues :
      s.queue.closed ≡ false
      → length s.queue.items < s.queue.capacity
      → enqueue submitted.id s.queue
        ≡ (returns none, record s.queue { items = s.queue.items ++ submitted.id ∷ [] })
  unfolding enqueue
  enqueues open' room =
      let test : ltb (length s.queue.items) s.queue.capacity ≡ true = ground arith in
      rw (enqueue, open', test) refl

  overflows :
      s.queue.closed ≡ false
      → s.queue.capacity ≤ length s.queue.items
      → enqueue submitted.id s.queue ≡ (returns (some (sentinel queue_full)), s.queue)
  unfolding enqueue
  overflows open' full =
      let test : ltb (length s.queue.items) s.queue.capacity ≡ false = ground arith in
      rw (enqueue, open', test) refl

  abbrev on_closed : Call (Option Error)
  on_closed = panics (bytes "send on closed channel")

  abbrev on_closed_queue : Call Response
  on_closed_queue = panics (bytes "send on closed channel")

  refuses : update refused (submitted ∷ s.repo) ≡ (none, refused ∷ s.repo)
  unfolding update find_job replace_job
  refuses = let e = bytes_eq_self submitted.id in rw (update, e) (rw e refl)

  accepted :
      s.queue.closed ≡ false
      → length s.queue.items < s.queue.capacity
      → enqueue_job (service times seeds) submitted (stored_as submitted) ≡ (
        returns (write_json 201 (job_body submitted)),
        record (stored_as submitted) {
          queue = record s.queue { items = s.queue.items ++ submitted.id ∷ [] };
          announced = submitted.id ∷ s.announced;
        },
      )
  unfolding enqueue_job service announce_job
  accepted open' room = rw (enqueue_job, enqueues open' room) (rw (enqueues open' room) refl)

  rejected :
      s.queue.closed ≡ false
      → s.queue.capacity ≤ length s.queue.items
      → enqueue_job (service times seeds) submitted (stored_as submitted) ≡ (
        returns (write_json_error 503 (bytes "queue full, try again later")),
        record (stored_as refused) { tick = s.tick + 1 + 1 + 1 },
      )
  unfolding enqueue_job service refuse_job transition can_transition bytes
  rejected open' full =
      rw (enqueue_job, overflows open' full)
        (rw (overflows open' full, refuse_job) (rw refuses refl))

  shuts : s.queue.closed ≡ true → enqueue submitted.id s.queue ≡ (on_closed, s.queue)
  unfolding enqueue
  shuts closed = rw (enqueue, closed) refl

  interrupted :
      s.queue.closed ≡ true
      → enqueue_job (service times seeds) submitted (stored_as submitted)
        ≡ (panics (bytes "send on closed channel"), stored_as submitted)
  unfolding enqueue_job service
  interrupted closed = rw (enqueue_job, shuts closed) (rw (shuts closed) refl)

  -- What a submission comes to, by whether its id is taken, the queue is closed, and the queue has room.
  abbrev pub outcome : Bool → Bool → Bool → Call Response × Service
  outcome true closed room = (
    returns (write_json_error 500 (bytes "failed to create job")),
    record s { tick = s.tick + 1 + 1 },
  )
  outcome false true room = (on_closed_queue, stored_as submitted)
  outcome false false true = (
    returns (write_json 201 (job_body submitted)),
    record (stored_as submitted) {
      queue = record s.queue { items = s.queue.items ++ submitted.id ∷ [] };
      announced = submitted.id ∷ s.announced;
    },
  )
  outcome false false false = (
    returns (write_json_error 503 (bytes "queue full, try again later")),
    record (stored_as refused) { tick = s.tick + 1 + 1 + 1 },
  )

  outcomes : {a b c a' b' c' : Bool} → a ≡ a' → b ≡ b' → c ≡ c' → outcome a' b' c' ≡ outcome a b c
  outcomes {a} {b} {c} {a'} {b'} {c'} e f g =
      sym (ap (λ x. outcome x b c) e ∙ ap (λ y. outcome a' y c) f ∙ ap (outcome a' b') g)

  enqueued :
      find_job submitted.id s.repo ≡ none
      → enqueue_job (service times seeds) submitted (stored_as submitted)
        ≡ outcome
            (is_some (find_job submitted.id s.repo))
            s.queue.closed
            (ltb (length s.queue.items) s.queue.capacity)
  enqueued new = elim (Bool-cases s.queue.closed) [
    | inl closed ↦ interrupted closed ∙ outcomes (ap is_some new) closed refl
    | inr open' ↦ elim (Bool-cases (ltb (length s.queue.items) s.queue.capacity)) [
      | inl room ↦ accepted open' (ground (arith, room)) ∙ outcomes (ap is_some new) open' room
      | inr full ↦ rejected open' (ground (arith, full)) ∙ outcomes (ap is_some new) open' full
    ]
  ]

  -- A submission whose id is new is queued behind the others and announced where the queue has room;
  -- where it has none, the job stays in the repository as failed and is not announced; where the queue
  -- is closed, the handler panics and the job stays queued in the repository. Where the id is taken,
  -- nothing is stored, queued or announced.
  pub submit_lem :
      submit (service times seeds) req s
      ≡ outcome
          (is_some (find_job submitted.id s.repo))
          s.queue.closed
          (ltb (length s.queue.items) s.queue.capacity)
  unfolding submit service new_id
  submit_lem = elim (found (find_job submitted.id s.repo)) [
    | inr (k, old) ↦ rw (submit, exists k old) (rw (exists k old, old) refl)
    | inl new ↦ submit-enqueues new ∙ enqueued new
  ]
