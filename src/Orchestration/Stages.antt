-- ===== src/Orchestration/Stages.antt =====
-- The work of the steps of Process (internal/orchestration/processor.go), but for reviewing.
use rojo.Base.{ℕ, zero, suc, ◌+◌, Bytes, List, [], ◌∷◌, ◌++◌, Option, none, some, bytes, decimal}
use rojo.Errors.{Error, wrap}
use rojo.Jobs.Status.{Job}
use rojo.Orchestration.Candidate.{Candidate, variant_id, variant_count}
use rojo.Orchestration.Env.{
  plan_created, workspace_created, job_ctx, Selection, WorkspaceManager, Env,
}
use rojo.Orchestration.Run.{
  created, M, pure, ◌>>=◌, ◌>>◌, gets, modify, ask, note, when_some, on_option, on_result,
}
use rojo.Orchestration.Actions.{emit, fail_with, fail_if, wrapped}

module _ {W : Type 0} (env : Env W) where
  unfoldable pub select_context : Job → M W Selection
  select_context job = on_option env.context (pure (record { files = []; tree = [] })) λ select. do
    found ← ask (select job.repo_path job.task)
    on_result found (λ e. pure (record { files = []; tree = [] }))
        λ sel. do
          modify (λ s. record s { context_files = sel.files; repo_tree = sel.tree })
          pure sel

  -- next == StatusPlanning
  unfoldable pub planning_stage : M W (Unit {0})
  planning_stage = when_some env.planner λ planner. do
    job ← gets (λ s. s.job)
    id ← gets (λ s. s.job_id)
    sel ← select_context job
    made ← ask (
        planner (record {
          task = job.task;
          repo_path = job.repo_path;
          files = sel.files;
          tree = sel.tree;
        }))
    on_result made (λ e. fail_with env (wrap (bytes "plan job " ++ (id ++ bytes ": ")) e []))
        λ plan. do
          modify (λ s. record s { plan = plan })
          emit env job_ctx (plan_created plan.summary plan.steps)

  -- The loop of createCandidates, with the rounds left and the candidates made so far.
  unfoldable pub create_from :
      WorkspaceManager W
      → Bytes
      → Bytes
      → ℕ
      → ℕ
      → ℕ
      → List Candidate
      → M W (List Candidate × Option Error)
  create_from manager id repo total zero i made = pure (made, none)
  create_from manager id repo total (suc left) i made = do
    tried ← ask (manager.create job_ctx (variant_id id i total) repo)
    let before = bytes "create workspace for variant " ++ (decimal i ++ bytes ": ")
    on_result tried (λ e. pure (made, some (wrap before e [])))
        λ ws. do
          note (created ws)
          create_from manager id repo total left (i + 1) (
              made
              ++ record {
                index = i;
                ws = some ws;
                report = record { results = [] };
                error = none;
                impl_error = none;
                touched = [];
              }
                ∷ [])

  unfoldable pub announce : List Candidate → M W (Unit {0})
  announce [] = pure tt
  announce (c ∷ cs) = do
    when_some c.ws (λ ws. emit env job_ctx (workspace_created c.index ws.path ws.branch))
    announce cs

  -- next == StatusPreparingWorkspace
  unfoldable pub workspace_stage : M W (Unit {0})
  workspace_stage = when_some env.workspaces λ manager. do
    job ← gets (λ s. s.job)
    id ← gets (λ s. s.job_id)
    let total = variant_count env.variants
    outcome ← create_from manager id job.repo_path total total 0 []
    modify (λ s. record s { cands = outcome.0 })
    fail_if env (wrapped env (bytes "prepare workspaces for job " ++ id) outcome.1)
    announce outcome.0
