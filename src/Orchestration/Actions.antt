-- ===== src/Orchestration/Actions.antt =====
-- The small methods of Processor (internal/orchestration/processor.go): events, status changes, and
-- the ways a job ends.
use rojo.Base.{Bytes, [], ◌++◌, Option, none, some, bytes, is_some, not, if◌then◌else◌}
use rojo.Errors.{
  Sentinel, Error, sentinel, wrap, join, plain, error_text, error_is, deadline_exceeded,
}
use rojo.Jobs.Status.{Status, failed, cancelled, status_text, transition}
use rojo.Orchestration.Env.{
  Payload, job_failed, job_cancelled, Event, Ctx, job_ctx, background, Env,
}
use rojo.Orchestration.Run.{
  Run, Metric, published, stored, counted, M, pure, ◌>>=◌, ◌>>◌, gets, modify, finish, ask, observe,
  note, when_some, when, on_option, on_result,
}

module _ {W : Type 0} where
  -- Which id the event is published under: markFailed and markCancelled pass the id of the record,
  -- the others the id that Process was called with.
  abbrev event_id : Payload → Run W → Bytes
  event_id (job_failed why) s = s.job.id
  event_id job_cancelled s = s.job.id
  event_id _ s = s.job_id

module _ {W : Type 0} (env : Env W) where
  -- emit: the error of Publish is dropped.
  unfoldable pub emit : Ctx → Payload → M W (Unit {0})
  emit ctx payload = when_some env.publish λ publish. do
    id ← gets (event_id payload)
    let event : Event = record { job_id = id; payload = payload; created_at = 0 }
    note (published ctx event)
    observe (λ w. (tt, publish ctx event w))

  unfoldable pub count : Metric → M W (Unit {0})
  count m = when env.metered (note (counted m))

  -- job.Transition, which changes the job in memory only.
  unfoldable pub move : Status → M W (Option Error)
  move to = do
    job ← gets (λ s. s.job)
    now ← observe env.now
    on_result (transition now job to) (λ e. pure (some e))
        λ job'. do modify (λ s. record s { job = job' }); pure none

  -- Repo.Update
  unfoldable pub update : Ctx → M W (Option Error)
  update ctx = do
    job ← gets (λ s. s.job)
    problem ← ask (env.update_job ctx job)
    note (stored ctx job (not (is_some problem)))
    pure problem

  abbrev pub wrapped : Bytes → Option Error → Option Error
  wrapped before none = none
  wrapped before (some e) = some (wrap (before ++ bytes ": ") e [])

  unfoldable pub advance : Status → M W (Option Error)
  advance to = do
    refused ← move to
    let persist : M W (Option Error) = do
      problem ← update job_ctx
      pure (wrapped (bytes "persist status " ++ status_text to) problem)
    on_option refused persist
        λ e. pure (wrapped (bytes "transition to " ++ status_text to) (some e))

  -- The error that markFailed returns; the terminal write does not ride on the job's context.
  unfoldable pub mark_failed : Error → M W (Option Error)
  mark_failed cause = do
    refused ← move failed
    let persist : M W (Option Error) = do
      emit background (job_failed (error_text cause))
      problem ← update background
      on_option problem (pure (some cause))
          λ e. pure (some (join cause (wrap (bytes "persist failed status: ") e [])))
    on_option refused persist λ e. pure (some (join cause e))

  unfoldable pub mark_cancelled : M W (Option Error)
  mark_cancelled = do
    refused ← move cancelled
    let persist : M W (Option Error) = do emit background job_cancelled; update background
    on_option refused persist λ e. pure (some e)

  -- `return p.markFailed(job, cause)`
  unfoldable pub fail_with : {A : Type 0} → Error → M W A
  fail_with cause = do e ← mark_failed cause; finish e

  unfoldable pub end_interrupted : {A : Type 0} → Sentinel → M W A
  end_interrupted cause =
      if error_is deadline_exceeded (sentinel cause)
      then (do
        id ← gets (λ s. s.job.id)
        fail_with (
            plain (
              bytes "job "
              ++ (id ++ (bytes " exceeded its " ++ (env.timeout_text ++ bytes " deadline"))))))
      else (do e ← mark_cancelled; finish e)

  -- A look at the job's context, which ends the job when it is over.
  unfoldable pub checkpoint : (W → Option Sentinel × W) → M W (Unit {0})
  checkpoint look = do over ← observe look; on_option over (pure tt) end_interrupted

  -- Makes Process return with a failure if there is an error.
  unfoldable pub fail_if : Option Error → M W (Unit {0})
  fail_if problem = on_option problem (pure tt) fail_with
