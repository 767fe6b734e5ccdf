-- ===== src/Orchestration/Process.antt =====
-- Process of internal/orchestration/processor.go: the loop over the steps, and what is deferred
-- around it.
use rojo.Base.{ℕ, zero, suc, Bytes, List, [], ◌∷◌, ◌++◌, none, some, bytes, if◌then◌else◌}
use rojo.Errors.{sentinel, panicked, wrap, ok, err}
use rojo.Jobs.Status.{
  Status, Job, planning, preparing_workspace, implementing, verifying, reviewing, completed, failed,
}
use rojo.Orchestration.Candidate.{Candidate}
use rojo.Orchestration.Env.{
  job_started, job_completed, step_started, step_completed, job_ctx, returns, panics,
  WorkspaceManager, Env,
}
use rojo.Orchestration.Run.{
  Effect, cleaned, counted, queue_wait, job_ended, tracked, released, Run, Exit, stop, panicking,
  exhausted, M, pure, ◌>>=◌, ◌>>◌, gets, finish, ask, note, when_some, when,
}
use rojo.Orchestration.Actions.{emit, count, advance, mark_failed, checkpoint, fail_if}
use rojo.Orchestration.Stages.{planning_stage, workspace_stage}
use rojo.Orchestration.Attempts.{implementing_stage, verifying_stage}
use rojo.Orchestration.Reviewing.{reviewing_stage}

abbrev pub initial_steps : List Status
initial_steps = planning ∷ preparing_workspace ∷ implementing ∷ verifying ∷ reviewing ∷ []

-- Two passes: five steps, and four more after the one revision.
abbrev pub step_fuel : ℕ
step_fuel = 9

-- A deferred function runs whatever the exit was, and its own panic takes the exit's place.
abbrev pub after : Exit (Unit {0}) → Exit (Unit {0}) → Exit (Unit {0})
after e (panicking v) = panicking v
after e _ = e

module _ {W : Type 0} (env : Env W) where
  -- The work of a step; the result is what it appends to the work list.
  unfoldable pub stage : Status → M W (List Status)
  stage planning = do planning_stage env; pure []
  stage preparing_workspace = do workspace_stage env; pure []
  stage implementing = do implementing_stage env; pure []
  stage verifying = do verifying_stage env; pure []
  stage reviewing = reviewing_stage env
  stage _ = pure []

  -- One round of the loop.
  unfoldable pub run_step : Status → M W (List Status)
  run_step to = do
    checkpoint env env.ctx_error
    emit env job_ctx (step_started to)
    problem ← advance env to
    fail_if env problem
    added ← stage to
    emit env job_ctx (step_completed to)
    checkpoint env env.pause
    pure added

  unfoldable pub run_steps : ℕ → List Status → M W (Unit {0})
  run_steps fuel [] = pure tt
  run_steps zero (to ∷ steps) = λ s. (exhausted, s)
  run_steps (suc fuel) (to ∷ steps) = do added ← run_step to; run_steps fuel (steps ++ added)

  -- The terminal transition.
  unfoldable pub complete : M W (Unit {0})
  complete = do
    checkpoint env env.ctx_error
    gate_error ← gets (λ s. s.gate_error)
    fail_if env gate_error
    emit env job_ctx (step_started completed)
    problem ← advance env completed
    fail_if env problem
    emit env job_ctx (step_completed completed)
    emit env job_ctx job_completed
    finish none

  -- From the loaded job to the last return.
  unfoldable pub body : M W (Unit {0})
  body = do
    count env queue_wait
    emit env job_ctx job_started
    run_steps step_fuel initial_steps
    complete

  -- The deferred loop over the candidates. An error of Cleanup is logged.
  unfoldable pub cleanup_each : WorkspaceManager W → List Candidate → M W (Unit {0})
  cleanup_each manager [] = pure tt
  cleanup_each manager (c ∷ cs) = do
    when_some c.ws (λ ws. do note (cleaned ws); ask (manager.cleanup job_ctx ws); pure tt)
    cleanup_each manager cs

  unfoldable pub cleanup : M W (Unit {0})
  cleanup =
      when_some env.workspaces λ manager. do cands ← gets (λ s. s.cands); cleanup_each manager cands

  unfoldable pub guarded : M W (Unit {0})
  guarded s =
      let (e, s1) = body s in
      let (e', s2) = cleanup s1 in
      (after e e', (when env.cancellable (note (released s2.job_id)) s2).1)

  -- The deferred recover: a panic becomes a failed job.
  unfoldable pub recovered : Exit (Unit {0}) → M W (Unit {0})
  recovered (panicking v) = do
    e ← mark_failed env (wrap [] (sentinel panicked) (bytes ": " ++ v))
    finish e
  recovered e = λ s. (e, s)

  unfoldable pub process_loaded : M W (Unit {0})
  process_loaded s =
      let (e, s1) = guarded s in
      let (e', s2) = recovered e s1 in (e', (count env (job_ended s2.job.status) s2).1)

  abbrev pub start : Bytes → Job → W → Run W
  start id job w = record {
    world = w;
    job_id = id;
    job = job;
    plan = record { summary = []; steps = [] };
    context_files = [];
    repo_tree = [];
    cands = [];
    winner = none;
    gate_error = none;
    feedback = [];
    revisions = 0;
    trace = if env.cancellable then tracked id ∷ [] else [];
  }

  -- A job that never loaded has nothing to clean up, and counts as failed.
  unfoldable pub unloaded : Bytes → List Effect
  unloaded id =
      (if env.metered then counted (job_ended failed) ∷ [] else [])
      ++ (if env.cancellable then released id ∷ tracked id ∷ [] else [])

  -- Process: how it ended, what it did, latest first, and the world that it left.
  unfoldable pub process : Bytes → W → Exit (Unit {0}) × List Effect × W
  process id w0 =
      let (loaded, w) = env.get_job id w0 in
      elim loaded [
        | panics v ↦ (stop (some (wrap [] (sentinel panicked) (bytes ": " ++ v))), unloaded id, w)
        | returns (err e) ↦
            (stop (some (wrap (bytes "load job " ++ (id ++ bytes ": ")) e [])), unloaded id, w)
        | returns (ok job) ↦ let (e, s) = process_loaded (start id job w) in (e, s.trace, s.world)
      ]
