-- ===== src/Orchestration/Stable.antt =====
-- What the steps of Process keep, from what its small methods keep: one rule for each stage.
pub mod Attempts
pub mod Stages
pub mod Loop
pub mod Final
pub mod Methods
pub mod Statuses
pub mod Inert
use rojo.Base.{
  is_some, map, ℕ, zero, suc, Bytes, Bool, true, false, List, [], ◌∷◌, Option, none, some, ◌≡◌,
  refl, if◌then◌else◌,
}
use rojo.Errors.{Sentinel, Error, Result, ok, err}
use rojo.Jobs.Status.{Status, Job, completed, status_eq}
use rojo.Agents.Types.{Plan}
use rojo.Orchestration.Candidate.{Candidate, passed}
use rojo.Orchestration.Env.{
  Payload, job_failed, job_cancelled, job_completed, job_ctx, Ctx, Env, Selection, WorkspaceManager,
}
use rojo.Orchestration.Run.{Metric, Run, M, pure, ◌>>=◌, ◌>>◌, gets, modify, finish, ask, observe}
use rojo.Orchestration.Run.Keeps.{
  Left, stopped, Hoare, Keeps, IsFrame, Hoare-bind, Keeps-bind, Keeps-pure, Keeps-observe,
  Keeps-modify, keeps_rules,
}
use rojo.Orchestration.Actions.{
  emit, count, advance, mark_failed, mark_cancelled, fail_with, end_interrupted, checkpoint,
  fail_if,
}
use rojo.Orchestration.Stages.{select_context, planning_stage, workspace_stage}

-- The events that say how a job ended.
abbrev pub ends_job : Payload → Bool
ends_job (job_failed why) = true
ends_job job_cancelled = true
ends_job job_completed = true
ends_job _ = false

-- A method whose result Process returns.
module _ {W : Type 0} where
  abbrev pub Ends : (Run W → Type 0) → (Left → Run W → Type 0) → M W (Option Error) → Type 0
  Ends I X m = Hoare I m (λ _. X stopped) X

  -- A gate that was run is open only where the attempt that it names passed.
  abbrev pub Vouches : Env W → Option Candidate × Option Error → Type 0
  Vouches env r =
      is_some env.verifier ≡ true
      → r.1 ≡ none
      → (c : Candidate) × (r.0 ≡ some c) × (passed c ≡ true)

  -- Calls of collaborators and events that do not end the job.
  pub record Quiet (env : Env W) (I : Run W → Type 0) (X : Left → Run W → Type 0) : Type 0 where
    pub frame : IsFrame I X
    pub emits : (ctx : Ctx) (p : Payload) → ends_job p ≡ false → Keeps I X (emit env ctx p)

  pub record Stable (env : Env W) (I : Run W → Type 0) (X : Left → Run W → Type 0) : Type 0 where
    pub quiet : Quiet env I X
    pub open quiet use *
    pub counts : (m : Metric) → Keeps I X (count env m)
    pub advances : (to : Status) → status_eq to completed ≡ false → Keeps I X (advance env to)
    pub fails : (e : Error) → Ends I X (mark_failed env e)
    pub cancels : Ends I X (mark_cancelled env)
    pub plans : (p : Plan) (s : Run W) → I s → I (record s { plan = p })
    pub selects :
        (files tree : List Bytes) (s : Run W)
        → I s
        → I (record s { context_files = files; repo_tree = tree })
    pub decides :
        (best : Option Candidate) (problem : Option Error) (s : Run W)
        → Vouches env (best, problem)
        → I s
        → I (record s { winner = best; gate_error = problem })
    pub attempts :
        (cs : List Candidate) (s : Run W)
        → map (λ c. c.ws) cs ≡ map (λ c. c.ws) s.cands
        → I s
        → I (record s { cands = cs })

module _ {W A : Type 0} {env : Env W} {I : Run W → Type 0} {X : Left → Run W → Type 0}
    (st : Stable env I X) where
  returned : (e : Option Error) → Hoare (X stopped) (finish {A = A} e) (λ _. I) X
  unfolding finish
  returned e = record { at = λ s h. h }

  -- It never goes on.
  pub Hoare-fail_with : {Q : A → Run W → Type 0} (e : Error) → Hoare I (fail_with env {A = A} e) Q X
  unfolding fail_with finish
  Hoare-fail_with e = Hoare-bind (λ _. X stopped) _ _ (st.fails e) λ r. record { at = λ s h. h }

  pub Keeps-fail_with : (e : Error) → Keeps I X (fail_with env {A = A} e)
  unfolding fail_with
  Keeps-fail_with e = Hoare-bind (λ _. X stopped) _ _ (st.fails e) returned

  Keeps-fail_cancelled : Keeps I X (do e ← mark_cancelled env; finish {A = A} e)
  Keeps-fail_cancelled = Hoare-bind (λ _. X stopped) _ _ st.cancels returned

  pub Keeps-end_interrupted : (c : Sentinel) → Keeps I X (end_interrupted env {A = A} c)
  unfolding end_interrupted
  Keeps-end_interrupted c = search (keeps_rules, Keeps-fail_cancelled, Keeps-fail_with)

module _ {W : Type 0} {env : Env W} {I : Run W → Type 0} {X : Left → Run W → Type 0}
    (st : Stable env I X) where
  pub Keeps-checkpoint : (look : W → Option Sentinel × W) → Keeps I X (checkpoint env look)
  unfolding checkpoint
  Keeps-checkpoint look = search (keeps_rules, st.frame, Keeps-end_interrupted st)

  pub Keeps-fail_if : (problem : Option Error) → Keeps I X (fail_if env problem)
  unfolding fail_if
  Keeps-fail_if problem = search (keeps_rules, Keeps-fail_with st)

  Keeps-select_context : (job : Job) → Keeps I X (select_context env job)
  unfolding select_context
  Keeps-select_context job = search (keeps_rules, st.frame, st.selects, Keeps-modify) depth 9

  pub Keeps-planning_stage : Keeps I X (planning_stage env)
  unfolding planning_stage
  Keeps-planning_stage =
      search
        (
          keeps_rules,
          st.frame,
          st.plans,
          st.emits,
          Keeps-modify,
          Keeps-fail_with st,
          Keeps-select_context,
        )
        depth 12
