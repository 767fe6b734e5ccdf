-- ===== src/Orchestration/Attempts.antt =====
-- The implementing and the verifying step of Process (internal/orchestration/processor.go, fanout.go
-- and artifacts.go).
use rojo.Base.{
  ℕ, suc, Bytes, Bool, true, false, ◌&&◌, ◌==◌, List, [], ◌∷◌, ◌++◌, map, Option, none, some, bytes,
  bytes_eq, is_some, is_empty, not, any, length, decimal, trim_space, ltb, if◌then◌else◌,
}
use rojo.Errors.{Error, plain, sentinel, panicked, wrap, error_text, Result}
use rojo.Verification.Report.{Report, summary}
use rojo.Agents.Types.{Operation, ImplementRequest}
use rojo.Orchestration.Candidate.{
  Workspace, Candidate, failure, implemented, passed, select_winner, representative, summarise,
  fanout_failure,
}
use rojo.Orchestration.Diff.{changed_files}
use rojo.Orchestration.Env.{
  implementation_completed, verification_completed, fanout_completed, diff_empty, diff_captured,
  job_ctx, detached, Call, returns, panics, Env,
}
use rojo.Orchestration.Run.{
  M, pure, ◌>>=◌, ◌>>◌, gets, modify, ask, observe, when_some, when, on_option, on_result,
}
use rojo.Orchestration.Actions.{emit, fail_with}

abbrev pub is_nil {ℓ} : {A : Type ℓ} → List A → Bool
is_nil [] = true
is_nil (a ∷ as') = false

-- The loops of mergePaths over the two lists; `seen` of the source holds what `out` holds.
unfoldable pub merge_onto : List Bytes → List Bytes → List Bytes
unfolding bytes_eq
merge_onto out [] = out
merge_onto out (p ∷ ps) =
    let fresh = not (is_empty p) && not (any (bytes_eq p) out) in
    merge_onto (if fresh then out ++ p ∷ [] else out) ps

unfoldable pub merge_paths : List Bytes → List Bytes → List Bytes
unfolding merge_onto
merge_paths a b = merge_onto (merge_onto [] a) b

unfoldable pub paths_of : List Operation → List Bytes
paths_of ops = map (λ op. op.path) ops

-- What one round did with an attempt.
pub data Attempt : Type 0 where
  skipped applied : Attempt
  unable : Error → Attempt

-- The candidate with the error kept as its implErr.
unfoldable pub spoilt : Candidate → Error → Candidate × Attempt
spoilt c why = (record c { impl_error = some why }, unable why)

-- The candidate with what the verifier said of it.
unfoldable pub judged : Candidate → Call (Report × Option Error) → Candidate
judged c (returns (report, problem)) = record c { report = report; error = problem }
judged c (panics v) = record c {
  error = some (
      wrap [] (sentinel panicked)
        (bytes ": verifying variant " ++ (decimal c.index ++ (bytes ": " ++ v))));
}

abbrev pub tally : Attempt → ℕ → ℕ
tally applied n = suc n
tally _ n = n

abbrev pub last_problem : Attempt → Option Error → Option Error
last_problem (unable e) old = some e
last_problem _ old = old

-- fmt.Errorf of a nil error prints %!w(<nil>); no loop without an applied attempt ends so unless
-- every attempt was skipped.
unfoldable pub nothing_implemented : Option Error → Error
nothing_implemented (some e) = wrap (bytes "no variant could be implemented: ") e []
nothing_implemented none = plain (bytes "no variant could be implemented: %!w(<nil>)")

-- What verify returns: the attempt that stands for the job, and why the job should fail.
unfoldable pub verdict_of : List Candidate → Option Candidate × Option Error
verdict_of cs = elim (select_winner cs) [
  | some c ↦ (some c, none)
  | none ↦ (representative cs, some (fanout_failure cs (summarise cs none)))
]

module _ {W : Type 0} (env : Env W) where
  -- One round of the loop of implement, for a candidate with a checkout. The candidate comes back
  -- changed; `applied` and `unable` say how the round ended.
  unfoldable pub implement_in :
      (ImplementRequest → W → Call (Result (List Operation)) × W)
      → Candidate
      → Workspace
      → M W (Candidate × Attempt)
  implement_in propose c ws = do
    s ← gets (λ s. s)
    files ← observe (env.read_sources ws.path (merge_paths s.context_files c.touched))
    proposed ← ask (
        propose (record {
          task = s.job.task;
          plan = s.plan;
          files = files;
          tree = s.repo_tree;
          feedback = s.feedback;
        }))
    on_result proposed (λ e. pure (spoilt c (wrap (bytes "propose changes: ") e [])))
        λ ops. do
          refused ← ask (env.apply ws.path ops)
          let done : M W (Candidate × Attempt) = do
            emit env job_ctx (implementation_completed c.index (length ops) (paths_of ops))
            pure (record c { touched = merge_paths c.touched (paths_of ops) }, applied)
          on_option refused done λ e. pure (spoilt c (wrap (bytes "apply changes: ") e []))

  unfoldable pub implement_one :
      (ImplementRequest → W → Call (Result (List Operation)) × W)
      → Bytes
      → Candidate
      → M W (Candidate × Attempt)
  implement_one propose feedback c = on_option c.ws (pure (c, skipped)) λ ws.
      if not (is_empty feedback) && is_some c.impl_error
      then pure (c, skipped)
      else implement_in propose c ws

  -- The loop of implement, with `lastErr` and `implemented`. The candidates are changed one by one in
  -- the source; here they are put back together, after the loop.
  unfoldable pub implement_each :
      (ImplementRequest → W → Call (Result (List Operation)) × W)
      → Bytes
      → List Candidate
      → Option Error
      → ℕ
      → M W (List Candidate × Option Error × ℕ)
  implement_each propose feedback [] problem n = pure ([], problem, n)
  implement_each propose feedback (c ∷ cs) problem n = do
    (c', how) ← implement_one propose feedback c
    (cs', problem', n') ←
        implement_each propose feedback cs (last_problem how problem) (tally how n)
    pure (c' ∷ cs', problem', n')

  -- next == StatusImplementing
  unfoldable pub implementing_stage : M W (Unit {0})
  implementing_stage = when_some env.implementor λ propose. do
    s ← gets (λ s. s)
    when (not (is_nil s.cands)) (do
      (cands, problem, n) ← implement_each propose s.feedback s.cands none 0
      modify (λ s. record s { cands = cands })
      when (n == 0) (fail_with env (nothing_implemented problem)))

  -- One goroutine of verifyCandidates: a panic is caught and becomes the candidate's error.
  unfoldable pub verify_one :
      (Bytes → W → Call (Report × Option Error) × W) → Candidate → M W Candidate
  verify_one verifier c =
      if implemented c
      then on_option c.ws (pure c)
          (λ ws. do verdict ← observe (verifier ws.path); pure (judged c verdict))
      else pure c

  -- verifyCandidates. The goroutines share nothing; here they run one after the other.
  unfoldable pub verify_each :
      (Bytes → W → Call (Report × Option Error) × W) → List Candidate → M W (List Candidate)
  verify_each verifier [] = pure []
  verify_each verifier (c ∷ cs) = do
    c' ← verify_one verifier c
    cs' ← verify_each verifier cs
    pure (c' ∷ cs')

  unfoldable pub report_each : List Candidate → M W (Unit {0})
  report_each [] = pure tt
  report_each (c ∷ cs) = do
    emit env job_ctx (
        verification_completed c.index (passed c) (summary c.report) c.report.results
          (elim (failure c) [ none ↦ none | some e ↦ some (error_text e) ]))
    report_each cs

  unfoldable pub verify : M W (Option Candidate × Option Error)
  verify = do
    cands ← gets (λ s. s.cands)
    on_option env.verifier (pure (representative cands, none)) λ verifier. do
      cs ← verify_each verifier cands
      modify (λ s. record s { cands = cs })
      report_each cs
      when (ltb 1 (length cs))
          (emit env job_ctx (fanout_completed (summarise cs (select_winner cs))))
      pure (verdict_of cs)

  unfoldable pub save_diff :
      (Bytes → Bytes → Bytes → W → Call (Option Error) × W) → Candidate → Bytes → M W (Unit {0})
  save_diff write c diff = do
    id ← gets (λ s. s.job_id)
    problem ← ask (write id (bytes "patch.diff") diff)
    when (not (is_some problem))
        (emit env job_ctx (diff_captured c.index (length diff) (changed_files diff)))

  -- captureDiff
  unfoldable pub capture_diff : Option Candidate → M W (Unit {0})
  capture_diff best = when_some env.artifacts λ write. when_some env.workspaces λ manager.
      when_some best λ c. when_some c.ws λ ws. do
        read ← ask (manager.diff detached ws)
        on_result read (λ e. pure tt)
            λ diff.
              if is_empty (trim_space diff)
              then emit env job_ctx (diff_empty c.index)
              else save_diff write c diff

  -- next == StatusVerifying
  unfoldable pub verifying_stage : M W (Unit {0})
  verifying_stage = do
    cands ← gets (λ s. s.cands)
    when (not (is_nil cands)) (do
      (best, problem) ← verify
      modify (λ s. record s { winner = best; gate_error = problem })
      capture_diff best)
