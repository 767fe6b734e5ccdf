-- ===== src/Orchestration/Env.antt =====
-- What a Processor (internal/orchestration/processor.go) is built from. Its collaborators are
-- interfaces: here operations on a world of their own. Those that answer a Call may panic. The bus,
-- the clock, the context and the reading of sources are taken not to: none of those in the repository
-- does.
use rojo.Base.{ℕ, Bytes, Bool, List, Option}
use rojo.Errors.{Sentinel, Error, Result}
use rojo.Jobs.Status.{Status, Job}
use rojo.Agents.Types.{
  Plan, PlanStep, PlanRequest, Operation, SourceFile, ImplementRequest, Decision, Review,
  ReviewRequest,
}
use rojo.Verification.Report.{Outcome, Report}
use rojo.Orchestration.Candidate.{Workspace, FanoutSummary}

-- The type and the payload of an event (internal/events/events.go).
pub data Payload : Type 0 where
  job_created job_started job_completed job_cancelled : Payload
  job_failed : Bytes → Payload
  step_started step_completed : Status → Payload
  plan_created : Bytes → List PlanStep → Payload
  workspace_created : ℕ → Bytes → Bytes → Payload
  implementation_completed : ℕ → ℕ → List Bytes → Payload
  verification_completed : ℕ → Bool → Bytes → List Outcome → Option Bytes → Payload
  fanout_completed : FanoutSummary → Payload
  diff_empty : ℕ → Payload
  diff_captured : ℕ → ℕ → List Bytes → Payload
  review_started : ℕ → Payload
  review_completed : ℕ → Decision → Bytes → List Bytes → Payload
  revision_requested : ℕ → Bytes → Payload

pub record Event : Type 0 where
  pub job_id : Bytes
  pub payload : Payload
  -- 0 is the zero time
  pub created_at : ℕ

-- Which context a call is given: the job's own, context.Background(), or the job's own stripped of
-- cancellation.
pub data Ctx : Type 0 where
  job_ctx background detached : Ctx

-- A call returns or panics.
pub data Call (A : Type 0) : Type 0 where
  returns : A → Call A
  panics : Bytes → Call A

-- internal/repocontext, the part of Context that the processor reads.
pub record Selection : Type 0 where
  pub files : List Bytes
  pub tree : List Bytes

pub record WorkspaceManager (W : Type 0) : Type 0 where
  pub create : Ctx → Bytes → Bytes → W → Call (Result Workspace) × W
  pub cleanup : Ctx → Workspace → W → Call (Option Error) × W
  pub diff : Ctx → Workspace → W → Call (Result Bytes) × W

-- The fields of Processor; an Option is a collaborator that may be nil. `apply` stands for
-- implementor.New(path).Apply, `read_sources` for readSources, `timeout_text` for the text of
-- jobTimeout(), `ctx_error` for jobCtx.Err(), and `pause` for the wait of 50 ms, which an end of the
-- context cuts short.
pub record Env (W : Type 0) : Type 0 where
  pub get_job : Bytes → W → Call (Result Job) × W
  pub update_job : Ctx → Job → W → Call (Option Error) × W
  pub cancellable : Bool
  pub publish : Option (Ctx → Event → W → W)
  pub workspaces : Option (WorkspaceManager W)
  pub verifier : Option (Bytes → W → Call (Report × Option Error) × W)
  pub planner : Option (PlanRequest → W → Call (Result Plan) × W)
  pub context : Option (Bytes → Bytes → W → Call (Result Selection) × W)
  pub implementor : Option (ImplementRequest → W → Call (Result (List Operation)) × W)
  pub artifacts : Option (Bytes → Bytes → Bytes → W → Call (Option Error) × W)
  pub reviewer : Option (ReviewRequest → W → Call (Result Review) × W)
  pub apply : Bytes → List Operation → W → Call (Option Error) × W
  pub read_sources : Bytes → List Bytes → W → List SourceFile × W
  pub variants : ℕ
  pub metered : Bool
  pub timeout_text : Bytes
  pub now : W → ℕ × W
  pub ctx_error : W → Option Sentinel × W
  pub pause : W → Option Sentinel × W
