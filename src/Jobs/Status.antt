-- ===== src/Jobs/Status.antt =====
-- internal/jobs/status.go, transitions.go and job.go.
use rojo.Base.{ℕ, Bytes, Bool, true, false, List, [], ◌∷◌, bytes, ◌==◌, if◌then◌else◌, ◌++◌}
use rojo.Errors.{Error, plain, Result, ok, err}

-- The ten constants of type JobStatus; a stored record that holds another text is not modelled.
pub data Status : Type 0 where
  queued planning preparing_workspace implementing verifying reviewing : Status
  waiting_for_revision completed failed cancelled : Status

abbrev pub Status_code : Status → ℕ
Status_code queued = 0
Status_code planning = 1
Status_code preparing_workspace = 2
Status_code implementing = 3
Status_code verifying = 4
Status_code reviewing = 5
Status_code waiting_for_revision = 6
Status_code completed = 7
Status_code failed = 8
Status_code cancelled = 9

abbrev pub status_eq : Status → Status → Bool
status_eq a b = Status_code a == Status_code b

unfoldable pub status_text : Status → Bytes
unfolding bytes
status_text queued = bytes "queued"
status_text planning = bytes "planning"
status_text preparing_workspace = bytes "preparing_workspace"
status_text implementing = bytes "implementing"
status_text verifying = bytes "verifying"
status_text reviewing = bytes "reviewing"
status_text waiting_for_revision = bytes "waiting_for_revision"
status_text completed = bytes "completed"
status_text failed = bytes "failed"
status_text cancelled = bytes "cancelled"

-- The map legalTransitions.
unfoldable pub legal_transitions : Status → List Status
legal_transitions queued = planning ∷ cancelled ∷ failed ∷ []
legal_transitions planning = preparing_workspace ∷ failed ∷ cancelled ∷ []
legal_transitions preparing_workspace = implementing ∷ failed ∷ cancelled ∷ []
legal_transitions implementing = verifying ∷ failed ∷ cancelled ∷ []
legal_transitions verifying = reviewing ∷ failed ∷ cancelled ∷ []
legal_transitions reviewing = completed ∷ waiting_for_revision ∷ failed ∷ cancelled ∷ []
legal_transitions waiting_for_revision = implementing ∷ failed ∷ cancelled ∷ []
legal_transitions completed = []
legal_transitions failed = []
legal_transitions cancelled = []

-- The loop over the allowed statuses in canTransition.
unfoldable pub among : Status → List Status → Bool
among to [] = false
among to (allowed ∷ rest) = if status_eq allowed to then true else among to rest

unfoldable pub can_transition : Status → Status → Bool
unfolding legal_transitions among
can_transition from to = among to (legal_transitions from)

-- Times are numbers that the clock hands out.
pub record Job : Type 0 where
  pub id : Bytes
  pub task : Bytes
  pub repo_path : Bytes
  pub status : Status
  pub created_at : ℕ
  pub updated_at : ℕ

unfoldable pub illegal_transition : Job → Status → Error
unfolding status_text
illegal_transition j next = plain (
    bytes "illegal transition for job "
    ++ (j.id ++ (bytes ": " ++ (status_text j.status ++ (bytes " -> " ++ status_text next)))))

-- Transition at the time `now`; a refused transition leaves the job as it was.
unfoldable pub transition : ℕ → Job → Status → Result Job
unfolding can_transition
transition now j next =
    if can_transition j.status next
    then ok (record j { status = next; updated_at = now })
    else err (illegal_transition j next)
