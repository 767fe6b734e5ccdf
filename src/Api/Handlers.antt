-- ===== src/Api/Handlers.antt =====
-- internal/api/jobs.go, events.go and artifacts.go: the handlers, and the recovery of recover.go round
-- them.
use rojo.Base.{
  ℕ, hex_encode, Bytes, List, ◌++◌, Option, none, some, bytes, length, drop, ltb, is_empty,
  if◌then◌else◌,
}
use rojo.Errors.{Error, error_is, error_text, job_not_found, not_exist, Result, ok, err}
use rojo.Jobs.Status.{status_text, Job, queued, failed, transition}
use rojo.Jobs.Request.{NewJobRequest, validate}
use rojo.Orchestration.Env.{Event, Call, returns, panics}
use rojo.Api.Response.{
  Response, write_json, write_json_error, job_body, jobs_body, cancel_body, events_body, diff_body,
}
use rojo.Api.Paging.{page_params, page, atoi, number, negative, no_number}

-- What the decoder of the request's body came to: a request, a body beyond the limit that
-- MaxBytesReader sets, or anything else.
pub data Decoded : Type 0 where
  decoded : NewJobRequest → Decoded
  too_large malformed : Decoded

-- The collaborators of JobsHandler, EventsHandler and DiffHandler, as operations on a world of their
-- own; an Option is one that may be nil. `random` stands for crypto/rand,
-- `quote` for strconv.Quote.
pub record Collaborators (W : Type 0) : Type 0 where
  pub create_job : Job → W → Option Error × W
  pub get_job : Bytes → W → Result Job × W
  pub update_job : Job → W → Option Error × W
  pub list_jobs : W → Result (List Job) × W
  pub enqueue : Option (Bytes → W → Call (Option Error) × W)
  pub cancel : Option (Bytes → W → Option Error × W)
  pub publish : Option (Bytes → W → W)
  pub history : Option (Bytes → W → Result (List Event) × W)
  pub artifact : Option (Bytes → W → Result Bytes × W)
  pub now : W → ℕ × W
  pub random : W → Bytes × W
  pub quote : Bytes → Bytes

-- The answer to an error of Repo.Get.
unfoldable pub load_failed : Error → Response
unfolding bytes
load_failed e =
    if error_is job_not_found e
    then write_json_error 404 (bytes "job not found")
    else write_json_error 500 (bytes "failed to load job")

-- The events from the cursor `since` on.
unfoldable pub since_events : Bytes → List Event → Response
unfolding bytes
since_events raw history =
    let refused = write_json_error 400 (bytes "since must be a non-negative integer") in
    if is_empty raw then write_json 200 (events_body history) else elim (atoi raw) [
      | no_number ↦ refused
      | negative ↦ refused
      | number n ↦
          write_json 200
            (events_body (drop (if ltb (length history) n then length history else n) history))
    ]

-- What Diff answers when the artifact could not be read.
unfoldable pub diff_failed : Job → Error → Response
unfolding bytes
diff_failed job e =
    if error_is not_exist e
    then write_json_error 404 (bytes "no diff for job in status " ++ status_text job.status)
    else write_json_error 500 (bytes "failed to read diff")

module _ {W : Type 0} (h : Collaborators W) where
  -- newID
  unfoldable pub new_id : W → Bytes × W
  new_id w = let (b, w1) = h.random w in (hex_encode b, w1)

  -- The branch of Create for a job that the queue refused: it is failed, as far as the store takes
  -- that.
  unfoldable pub refuse_job : Job → W → W
  refuse_job job w =
      let (now, w1) = h.now w in
      elim (transition now job failed) [ err e ↦ w1 | ok job' ↦ (h.update_job job' w1).1 ]

  -- Create, from the stored job on.
  unfoldable pub announce_job : Job → W → Response × W
  announce_job job w = elim h.publish [
    | none ↦ (write_json 201 (job_body job), w)
    | some publish ↦ (write_json 201 (job_body job), publish job.id w)
  ]

  unfoldable pub enqueue_job : Job → W → Call Response × W
  unfolding bytes
  enqueue_job job w = elim h.enqueue [
    | none ↦ let (r, w1) = announce_job job w in (returns r, w1)
    | some enqueue ↦
        let (answer, w1) = enqueue job.id w in
        elim answer [
          | panics v ↦ (panics v, w1)
          | returns (some e) ↦ (
            returns (write_json_error 503 (bytes "queue full, try again later")),
            refuse_job job w1,
          )
          | returns none ↦ let (r, w2) = announce_job job w1 in (returns r, w2)
        ]
  ]

  unfoldable pub submit : NewJobRequest → W → Call Response × W
  unfolding bytes
  submit req w =
      let (now, w1) = h.now w in
      let (id, w2) = new_id w1 in
      let job : Job = record {
        id = id;
        task = req.task;
        repo_path = req.repo_path;
        status = queued;
        created_at = now;
        updated_at = now;
      } in
      let (problem, w3) = h.create_job job w2 in
      elim problem [
        | some e ↦ (returns (write_json_error 500 (bytes "failed to create job")), w3)
        | none ↦ enqueue_job job w3
      ]

  -- Create
  unfoldable pub create_handler : Decoded → W → Call Response × W
  unfolding bytes
  create_handler too_large w = (returns (write_json_error 413 (bytes "request body too large")), w)
  create_handler malformed w = (returns (write_json_error 400 (bytes "invalid json body")), w)
  create_handler (decoded raw) w =
      let (problem, req) = validate raw in
      elim problem [
        | some e ↦ (returns (write_json_error 400 (error_text e)), w)
        | none ↦ submit req w
      ]

  -- Get
  unfoldable pub get_handler : Bytes → W → Response × W
  get_handler id w =
      let (loaded, w1) = h.get_job id w in
      elim loaded [ err e ↦ (load_failed e, w1) | ok job ↦ (write_json 200 (job_body job), w1) ]

  -- Cancel
  unfoldable pub cancel_handler : Bytes → W → Response × W
  unfolding bytes
  cancel_handler id w =
      let (loaded, w1) = h.get_job id w in
      elim loaded [
        | err e ↦ (load_failed e, w1)
        | ok job ↦ elim h.cancel [
          | none ↦ (write_json_error 503 (bytes "cancellation not available"), w1)
          | some cancel ↦
              let (problem, w2) = cancel id w1 in
              (
                elim problem [
                  | some e ↦ write_json_error 409 (error_text e)
                  | none ↦ write_json 202 (cancel_body id)
                ],
                w2,
              )
        ]
      ]

  -- List, at the parameters `limit` and `offset` of the query.
  unfoldable pub list_handler : Bytes → Bytes → W → Response × W
  unfolding bytes
  list_handler limit offset w = elim (page_params h.quote limit offset) [
    | err e ↦ (write_json_error 400 (error_text e), w)
    | ok (l, o) ↦
        let (loaded, w1) = h.list_jobs w in
        (
          elim loaded [
            | err e ↦ write_json_error 500 (bytes "failed to list jobs")
            | ok jobs ↦ record (write_json 200 (jobs_body (page l o jobs))) {
              total = some (length jobs);
            }
          ],
          w1,
        )
  ]

  -- History
  unfoldable pub history_handler : Bytes → Bytes → W → Response × W
  unfolding bytes
  history_handler id since w = elim h.history [
    | none ↦ (write_json_error 503 (bytes "event store not available"), w)
    | some history ↦
        let (loaded, w1) = history id w in
        (
          elim loaded [
            | err e ↦ write_json_error 500 (bytes "failed to load events")
            | ok events ↦ since_events since events
          ],
          w1,
        )
  ]

  -- Diff
  unfoldable pub diff_handler : Bytes → W → Response × W
  unfolding bytes
  diff_handler id w =
      let (loaded, w1) = h.get_job id w in
      elim loaded [
        | err e ↦ (load_failed e, w1)
        | ok job ↦ elim h.artifact [
          | none ↦ (write_json_error 503 (bytes "artifacts not available"), w1)
          | some read ↦
              let (found, w2) = read id w1 in
              (
                elim found [
                  | err e ↦ diff_failed job e
                  | ok diff ↦ write_json 200 (diff_body diff)
                ],
                w2,
              )
        ]
      ]

-- RecoverMiddleware, for a response that is still to be written and a panic that is no abort.
unfoldable pub recover_handler : Call Response → Response
unfolding bytes
recover_handler (returns r) = r
recover_handler (panics v) = write_json_error 500 (bytes "internal server error")
