-- ===== src/Examples.antt =====
-- The theorems at concrete inputs, and runs of Process from end to end.
pub mod Service
pub mod Checkouts
pub mod Selections
pub mod Metrics
pub mod Settings
pub mod Workers
pub mod Memory
pub mod Stores
pub mod Setting
pub mod Runs
pub mod Edges
pub mod Checks
use rojo.Base.{
  ℕ, Bool, true, false, List, [], ◌∷◌, Option, none, some, ◌≡◌, ◌≢◌, refl, ◌≤◌, ◌⊎◌, ◌↔◌, arith,
  bytes,
}
use rojo.Errors.{Error, plain}
use rojo.Jobs.Status.{
  Status, queued, planning, preparing_workspace, implementing, verifying, reviewing,
  waiting_for_revision, completed, failed, cancelled, can_transition, transition,
  illegal_transition,
}
use rojo.Jobs.Lifecycle.{
  Edge, Reach, here, is_terminal, visits, can_transition_iff_Edge, terminal_absorbs,
  completed_history,
}
use rojo.Jobs.Transitions.{transition_lem}
use rojo.Orchestration.Candidate.{
  Candidate, select_winner, count_passed, representative, variant_count, max_variants,
}
use rojo.Orchestration.Attempts.{verdict_of}
use mathlib.Core.List.{Perm}
use rojo.Base.{is_some, Bytes}
use rojo.Errors.{sentinel, job_not_found, job_already_exists}
use rojo.Jobs.Repository.{Repository, find_job, get, update, create, list_jobs}
use rojo.Jobs.Repository.Lookup.{with_job, update_lem, create_lem}
use rojo.Jobs.Repository.Order.{IsNewestFirst, list_jobs_lem}
use rojo.Jobs.Status.{status_eq}
use rojo.Orchestration.Recovery.{is_interrupted}
use rojo.Orchestration.Recovery.Outcomes.{Counts}
use rojo.Orchestration.Recovery.Counts.{is_interrupted_lem}
use rojo.Queue.{Queue, new_queue, enqueue}
use rojo.Queue.Order.{Life, born, accepts, Ordered, Life-Ordered}
use rojo.Orchestration.Env.{returns}
use rojo.Orchestration.Choice.{FirstPassed, select_winner_lem, verdict_of_lem, variant_count_bounds}
use rojo.Orchestration.Run.{Run}
use rojo.Orchestration.Reviewing.{review}
use rojo.Orchestration.Gate.{Verdicts, review-failed_gate}
use rojo.Orchestration.Process.{process_loaded, start}
use rojo.Orchestration.Endings.Returns.{leaves, process-returns_terminal}
use rojo.Orchestration.Endings.Path.{process-Reach}
use rojo.Orchestration.Endings.Passed.{Sound}
use rojo.Orchestration.Endings.Passed.Last.{process-completed_passed}
use rojo.Examples.Runs.{fixed_status, taken}
use rojo.Examples.Setting.{env, fixable, broken, job, later_job, good, bad, unbuilt}

can_transition_iff_Edge_example :
    (can_transition reviewing waiting_for_revision ≡ true) ↔ Edge reviewing waiting_for_revision
can_transition_iff_Edge_example = can_transition_iff_Edge reviewing waiting_for_revision

abbrev revised_life : List Status
revised_life =
    planning ∷ preparing_workspace ∷ implementing ∷ verifying ∷ reviewing ∷ waiting_for_revision
    ∷ implementing ∷ verifying ∷ reviewing ∷ completed ∷ []

completed_history_example :
    (visits verifying revised_life ≡ true) × (visits reviewing revised_life ≡ true)
unfolding can_transition
completed_history_example =
    completed_history revised_life
      (refl, (refl, (refl, (refl, (refl, (refl, (refl, (refl, (refl, (refl, tt)))))))))) refl

verdict_of_lem_example :
    ((c : Candidate) × (verdict_of (unbuilt ∷ bad ∷ []) ≡ (some c, none))
      × FirstPassed c (unbuilt ∷ bad ∷ []))
    ⊎ ((e : Error) × (verdict_of (unbuilt ∷ bad ∷ [])
          ≡ (representative (unbuilt ∷ bad ∷ []), some e))
        × (count_passed (unbuilt ∷ bad ∷ []) ≡ 0))
verdict_of_lem_example = verdict_of_lem (unbuilt ∷ bad ∷ [])

review-failed_gate_example :
    ((review env
        (some bad)
        (some (plain (bytes "checks failed")))
        true
        (start env (bytes "j") job 0)).1
      ≡ start env (bytes "j") job 0)
    × Verdicts
        (some bad)
        (plain (bytes "checks failed"))
        true
        (review env
          (some bad)
          (some (plain (bytes "checks failed")))
          true
          (start env (bytes "j") job 0)).0
review-failed_gate_example =
    review-failed_gate env (some bad) (plain (bytes "checks failed")) true
      (start env (bytes "j") job 0)

process-returns_terminal_example :
    (leaves (process_loaded fixable (start fixable (bytes "j") job 0)).0 ≡ true)
    × (is_terminal (process_loaded fixable (start fixable (bytes "j") job 0)).1.job.status ≡ true)
process-returns_terminal_example = process-returns_terminal fixable (bytes "j") job 0

process-Reach_example :
    Reach queued (process_loaded broken (start broken (bytes "j") job 0)).1.job.status
process-Reach_example = process-Reach broken (bytes "j") job 0

process-completed_passed_example :
    Sound (process_loaded fixable (start fixable (bytes "j") job 0)).1
process-completed_passed_example =
    process-completed_passed fixable (bytes "j") job 0 refl (λ e. cc e) fixed_status

update_lem_example :
    (is_some (find_job job.id (job ∷ [])) ≡ true
      → ((update job (job ∷ [])).0 ≡ none)
        × ((id : Bytes) → get id (update job (job ∷ [])).1 ≡ with_job job id (get id (job ∷ []))))
    × (is_some (find_job job.id (job ∷ [])) ≡ false
        → update job (job ∷ []) ≡ (some (sentinel job_not_found), job ∷ []))
update_lem_example = update_lem job (job ∷ [])

create_lem_example :
    (is_some (find_job job.id []) ≡ false
      → ((create job []).0 ≡ none)
        × ((id : Bytes) → get id (create job []).1 ≡ with_job job id (get id [])))
    × (is_some (find_job job.id []) ≡ true
        → create job [] ≡ (some (sentinel job_already_exists), []))
create_lem_example = create_lem job []

list_jobs_lem_example :
    Perm (list_jobs (job ∷ later_job ∷ [])) (job ∷ later_job ∷ [])
    × IsNewestFirst (list_jobs (job ∷ later_job ∷ []))
list_jobs_lem_example = list_jobs_lem (job ∷ later_job ∷ [])

Life-Ordered_example : Ordered ((7 ∷ []) ∷ []) [] (enqueue (7 ∷ []) (new_queue 0)).1
Life-Ordered_example = Life-Ordered 0 _ _ _ (accepts (7 ∷ []) born taken)
