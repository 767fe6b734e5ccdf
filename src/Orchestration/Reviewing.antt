-- ===== src/Orchestration/Reviewing.antt =====
-- The reviewing step (internal/orchestration/review.go), and what Process does with its decision.
use rojo.Base.{
  ℕ, suc, Bytes, Bool, ◌&&◌, List, [], ◌∷◌, ◌++◌, Option, none, some, bytes, is_some, length, take,
  leb, ltb, if◌then◌else◌,
}
use rojo.Errors.{Error, plain, sentinel, max_revisions_exceeded, wrap, error_text, Result, err}
use rojo.Jobs.Status.{Status, waiting_for_revision, implementing, verifying, reviewing}
use rojo.Verification.Report.{Outcome, summary}
use rojo.Agents.Types.{ReviewRequest, Review, approve, request_changes, reject, other_decision}
use rojo.Orchestration.Candidate.{Candidate, failure}
use rojo.Orchestration.Diff.{changed_files}
use rojo.Orchestration.Env.{
  review_started, review_completed, revision_requested, job_ctx, Call, Env,
}
use rojo.Orchestration.Run.{
  revision, M, pure, ◌>>=◌, ◌>>◌, gets, modify, panic, ask, on_option, on_result,
}
use rojo.Orchestration.Actions.{emit, count, fail_with}
use rojo.Orchestration.Attempts.{is_nil}

abbrev pub max_revisions : ℕ
max_revisions = 1

max_feedback_output : ℕ
max_feedback_output = 4096

-- The outcome of review with the notes or the error that come with it.
pub data Verdict : Type 0 where
  approved : Verdict
  revise : Bytes → Verdict
  refused : Error → Verdict

-- truncate of review.go
unfoldable pub truncate : Bytes → ℕ → Bytes
unfolding bytes
truncate s max = if leb (length s) max then s else take max s ++ bytes "\n... (truncated)"

failing_output : List Outcome → Bytes
unfolding truncate max_feedback_output
failing_output [] = []
failing_output (r ∷ rs) =
    let rest = failing_output rs in
    if r.passed
    then rest
    else bytes "\n--- "
      ++ (r.check
          ++ (bytes " ---\n" ++ (truncate r.output max_feedback_output ++ (bytes "\n" ++ rest))))

unfoldable pub gate_feedback : Candidate → Bytes
unfolding failing_output failure error_text bytes
gate_feedback c =
    bytes "The previous attempt failed verification: "
    ++ (summary c.report
        ++ ((elim (failure c) [
          | none ↦ []
          | some e ↦ bytes "\nThe verifier reported: " ++ error_text e
        ])
            ++ (bytes "\n\nFix the cause. Output from the failing checks:\n"
                ++ failing_output c.report.results)))

-- A gate that could not be run left an error and no results.
unfoldable pub could_not_run : Candidate → Bool
could_not_run c = is_some c.error && is_nil c.report.results

abbrev pub or_nil_error : Option Error → Error
or_nil_error (some e) = e
or_nil_error none = plain []

-- The switch on the reviewer's decision.
unfoldable pub decide : Bytes → Bool → Review → Verdict
unfolding bytes
decide id can_revise r =
    let again =
      if can_revise
      then revise r.notes
      else refused (
          wrap [] (sentinel max_revisions_exceeded)
            (bytes " for job " ++ (id ++ (bytes ": " ++ r.notes)))) in
    elim r.decision [
      | approve ↦ approved
      | reject ↦ refused (plain (bytes "review rejected job " ++ (id ++ (bytes ": " ++ r.notes))))
      | request_changes ↦ again
      | other_decision d ↦ again
    ]

module _ {W : Type 0} where
  -- A method called on a nil candidate.
  unfoldable pub nil_pointer : M W Verdict
  nil_pointer = panic (bytes "invalid memory address or nil pointer dereference")

module _ {W : Type 0} (env : Env W) where
  -- review with gateErr set: the model is not asked.
  unfoldable pub review_failed_gate : Option Candidate → Error → Bool → M W Verdict
  review_failed_gate best why can_revise =
      on_option best (if can_revise then nil_pointer else pure (refused why)) λ c. pure (
        if could_not_run c
        then refused (wrap (bytes "verification could not run: ") (or_nil_error (failure c)) [])
        else if can_revise
        then revise (gate_feedback c)
        else refused why)

  -- diffOf
  unfoldable pub diff_of : Candidate → M W (Result Bytes)
  diff_of c =
      let missing : M W (Result Bytes) = pure (err (plain (bytes "no workspace to diff"))) in
      on_option env.workspaces missing
        λ manager. on_option c.ws missing λ ws. ask (manager.diff job_ctx ws)

  unfoldable pub ask_reviewer :
      (ReviewRequest → W → Call (Result Review) × W) → Candidate → Bool → Bytes → M W Verdict
  ask_reviewer reviewer best can_revise diff = do
    s ← gets (λ s. s)
    answer ← ask (
        reviewer (record {
          task = s.job.task;
          plan = s.plan;
          diff = diff;
          verification = best.report;
          prior_feedback = s.feedback;
          changed_files = changed_files diff;
        }))
    let before = bytes "review job " ++ (s.job_id ++ bytes ": ")
    on_result answer (λ e. pure (refused (wrap before e [])))
        λ r. do
          emit env job_ctx (review_completed best.index r.decision r.notes r.reasons)
          pure (decide s.job_id can_revise r)

  -- review with gateErr nil.
  unfoldable pub review_passed_gate : Option Candidate → Bool → M W Verdict
  review_passed_gate best can_revise = on_option env.reviewer (pure approved) λ reviewer.
      on_option best nil_pointer λ c. do
        emit env job_ctx (review_started c.index)
        read ← diff_of c
        on_result read (λ e. pure approved) (ask_reviewer reviewer c can_revise)

  unfoldable pub review : Option Candidate → Option Error → Bool → M W Verdict
  review best gate_error can_revise =
      on_option gate_error (review_passed_gate best can_revise)
        λ why. review_failed_gate best why can_revise

  -- The switch of Process on the outcome: the steps that are appended to the work list.
  unfoldable pub act_on : Verdict → M W (List Status)
  act_on approved = pure []
  act_on (refused e) = fail_with env e
  act_on (revise notes) = do
    count env revision
    modify (λ s. record s { revisions = suc s.revisions; feedback = notes; gate_error = none })
    n ← gets (λ s. s.revisions)
    emit env job_ctx (revision_requested n notes)
    pure (waiting_for_revision ∷ implementing ∷ verifying ∷ reviewing ∷ [])

  -- next == StatusReviewing
  unfoldable pub reviewing_stage : M W (List Status)
  reviewing_stage = do
    s ← gets (λ s. s)
    let can_revise = is_some env.implementor && ltb s.revisions max_revisions
    let run : M W (List Status) = do
      verdict ← review s.winner s.gate_error can_revise
      act_on verdict
    if is_nil s.cands then pure [] else run
