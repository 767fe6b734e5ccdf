-- ===== src/Examples/Runs.antt =====
-- Runs of Process from end to end: the status that the job ends in, and the revisions asked for.
use rojo.Base.{◌∷◌, [], none, ap, ℕ, Bool, true, ◌≡◌, refl, bytes}
use rojo.Queue.{new_queue, enqueue}
use rojo.Orchestration.Env.{returns}
use rojo.Jobs.Status.{Status, completed, failed}
use rojo.Orchestration.Process.{process_loaded, start}
use rojo.Orchestration.Env.{Env}
use rojo.Orchestration.Endings.Returns.{leaves}
use rojo.Examples.Setting.{env, fixable, failing, broken, job}
use rojo.Orchestration.Run.{
  on_option, on_result, pure, ◌>>=◌, gets, modify, finish, panic, ask, observe, note, when_some,
  when,
}
use rojo.Orchestration.Actions.{
  emit, count, move, update, advance, mark_failed, mark_cancelled, fail_with, end_interrupted,
  checkpoint, fail_if,
}
use rojo.Orchestration.Stages.{
  select_context, planning_stage, create_from, announce, workspace_stage,
}
use rojo.Orchestration.Attempts.{
  merge_onto, merge_paths, paths_of, spoilt, judged, nothing_implemented, verdict_of, implement_in,
  implement_one, implement_each, implementing_stage, verify_one, verify_each, report_each, verify,
  save_diff, capture_diff, verifying_stage,
}
use rojo.Orchestration.Reviewing.{
  truncate, gate_feedback, could_not_run, decide, nil_pointer, review_failed_gate, diff_of,
  ask_reviewer, review_passed_gate, review, act_on, reviewing_stage,
}
use rojo.Orchestration.Process.{
  stage, run_step, run_steps, complete, body, cleanup_each, cleanup, guarded, recovered,
  process_loaded, unloaded, process,
}
use rojo.Orchestration.Candidate.{
  failure, implemented, passed, variant_id, variant_count, select_winner, first_implemented,
  representative, count_passed, summarise, join_failures, fanout_failure,
}
use rojo.Jobs.Status.{
  status_text, legal_transitions, among, can_transition, illegal_transition, transition,
}
use rojo.Verification.Report.{all_passed_in, all_passed, failed_checks, summary}

abbrev run : Env ℕ → Bool × Status × ℕ
unfolding on_option on_result pure ◌>>=◌ gets modify finish panic ask observe note when_some when
    emit count move update advance mark_failed mark_cancelled fail_with end_interrupted checkpoint
    fail_if select_context planning_stage create_from announce workspace_stage merge_onto
    merge_paths paths_of spoilt judged nothing_implemented verdict_of implement_in implement_one
    implement_each implementing_stage verify_one verify_each report_each verify save_diff
    capture_diff verifying_stage truncate gate_feedback could_not_run decide nil_pointer
    review_failed_gate diff_of ask_reviewer review_passed_gate review act_on reviewing_stage stage
    run_step run_steps complete body cleanup_each cleanup guarded recovered process_loaded unloaded
    process failure implemented passed variant_id variant_count select_winner first_implemented
    representative count_passed summarise join_failures fanout_failure status_text legal_transitions
    among can_transition illegal_transition transition all_passed_in all_passed failed_checks
    summary
run env =
    let (e, s) = process_loaded env (start env (bytes "j") job 0) in
    (leaves e, s.job.status, s.revisions)

runs_through : run env ≡ (true, completed, 0)
unfolding run
runs_through = refl

is_fixed : run fixable ≡ (true, completed, 1)
unfolding run
is_fixed = refl

fails_again : run failing ≡ (true, failed, 1)
unfolding run
fails_again = refl

recovers : run broken ≡ (true, failed, 0)
unfolding run
recovers = refl

pub fixed_status :
    (process_loaded fixable (start fixable (bytes "j") job 0)).1.job.status ≡ completed
unfolding run
fixed_status = ap (λ r. r.1) is_fixed

pub taken : (enqueue (7 ∷ []) (new_queue 0)).0 ≡ returns none
unfolding enqueue new_queue
taken = refl
