-- ===== src/Orchestration/Run.antt =====
-- The state of one run of Process (internal/orchestration/processor.go), and its steps: a step may
-- go on, make Process return, or panic.
pub mod Yields
pub mod Keeps
use rojo.Base.{
  ℕ, Bytes, Bool, true, false, List, [], ◌∷◌, ◌++◌, Option, none, some, bytes, if◌then◌else◌,
}
use rojo.Errors.{
  Sentinel, Error, wrap, join, plain, error_text, error_is, deadline_exceeded, Result, ok, err,
}
use rojo.Jobs.Status.{Status, Job, failed, cancelled, status_text, transition}
use rojo.Agents.Types.{Plan}
use rojo.Orchestration.Candidate.{Workspace, Candidate}
use rojo.Orchestration.Env.{
  Payload, job_failed, job_cancelled, Event, Ctx, job_ctx, background, Call, returns, panics, Env,
}

-- What the run counts in the metrics registry.
pub data Metric : Type 0 where
  queue_wait revision : Metric
  job_ended : Status → Metric

-- What a run does to its collaborators. `stored` says whether Repo.Update took the job.
pub data Effect : Type 0 where
  published : Ctx → Event → Effect
  stored : Ctx → Job → Bool → Effect
  created cleaned : Workspace → Effect
  counted : Metric → Effect
  tracked released : Bytes → Effect

-- The local variables of Process, with what it did, the latest first. `winner` is a copy of the
-- candidate: the verifying step sets it, and until the reviewing step has read it nothing changes a
-- candidate.
pub record Run (W : Type 0) : Type 0 where
  pub world : W
  pub job_id : Bytes
  pub job : Job
  pub plan : Plan
  pub context_files : List Bytes
  pub repo_tree : List Bytes
  pub cands : List Candidate
  pub winner : Option Candidate
  pub gate_error : Option Error
  pub feedback : Bytes
  pub revisions : ℕ
  pub trace : List Effect

-- `exhausted` is no behaviour of the source: the loop of the model ran out of fuel.
pub data Exit (A : Type 0) : Type 0 where
  next : A → Exit A
  stop : Option Error → Exit A
  panicking : Bytes → Exit A
  exhausted : Exit A

abbrev pub M : Type 0 → Type 0 → Type 0
M W A = Run W → Exit A × Run W

module _ {A B : Type 0} where
  -- The two ways on from `if err != nil`.
  unfoldable pub on_option : Option A → B → (A → B) → B
  on_option none b f = b
  on_option (some a) b f = f a

  unfoldable pub on_result : Result A → (Error → B) → (A → B) → B
  on_result (err e) g f = g e
  on_result (ok a) g f = f a

abbrev pub exit_of : {A : Type 0} → Call A → Exit A
exit_of (returns a) = next a
exit_of (panics v) = panicking v

module _ {W : Type 0} where
  unfoldable pub pure : {A : Type 0} → A → M W A
  pure a s = (next a, s)

  abbrev pub continue : {A B : Type 0} → Exit A → (A → M W B) → M W B
  continue (next a) f s = f a s
  continue (stop e) f s = (stop e, s)
  continue (panicking v) f s = (panicking v, s)
  continue exhausted f s = (exhausted, s)

  infixl 5 ◌>>=◌ ◌>>◌
  unfoldable pub ◌>>=◌ : {A B : Type 0} → M W A → (A → M W B) → M W B
  ◌>>=◌ m f s = let (e, s') = m s in continue e f s'

  abbrev pub ◌>>◌ : {A B : Type 0} → M W A → M W B → M W B
  m >> n = m >>= λ _. n

  unfoldable pub gets : {A : Type 0} → (Run W → A) → M W A
  gets f s = (next (f s), s)

  unfoldable pub modify : (Run W → Run W) → M W (Unit {0})
  modify f s = (next tt, f s)

  -- `return err` of the source.
  unfoldable pub finish : {A : Type 0} → Option Error → M W A
  finish e s = (stop e, s)

  unfoldable pub panic : {A : Type 0} → Bytes → M W A
  panic v s = (panicking v, s)

  -- A call of a collaborator.
  unfoldable pub ask : {A : Type 0} → (W → Call A × W) → M W A
  ask call s = let (r, w) = call s.world in (exit_of r, record s { world = w })

  -- A call that cannot panic: the clock, the context.
  unfoldable pub observe : {A : Type 0} → (W → A × W) → M W A
  observe call s = let (a, w) = call s.world in (next a, record s { world = w })

  unfoldable pub note : Effect → M W (Unit {0})
  note e s = (next tt, record s { trace = e ∷ s.trace })

  unfoldable pub when_some : {A : Type 0} → Option A → (A → M W (Unit {0})) → M W (Unit {0})
  when_some none f = pure tt
  when_some (some a) f = f a

  unfoldable pub when : Bool → M W (Unit {0}) → M W (Unit {0})
  when true m = m
  when false m = pure tt
