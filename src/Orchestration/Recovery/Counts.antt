-- ===== src/Orchestration/Recovery/Counts.antt =====
-- About recovery.go: what a recovery does with each status, and what its report counts.
use rojo.Base.{Bytes, true, false, not, List, [], ◌∷◌, Option, none, some, ◌≡◌, ◌↔◌, arith, is_some}
use rojo.Errors.{Error}
use rojo.Jobs.Status.{Status, Job, queued, failed, status_eq, can_transition}
use rojo.Jobs.Lifecycle.{is_terminal}
use rojo.Orchestration.Recovery.{
  Recoverer, RecoveryReport, is_interrupted, reclaim_worktree, announce_failure,
}
use rojo.Orchestration.Recovery.Outcomes.{JobOutcome, accepted, refused, ended, passed_over, Counts}

-- A status counts as interrupted exactly where it is neither terminal nor queued, and a job in it may
-- be failed.
pub is_interrupted_lem :
    (s : Status)
    → ((is_interrupted s ≡ true) ↔ ((is_terminal s ≡ false) × (status_eq s queued ≡ false)))
      × (is_interrupted s ≡ true → can_transition s failed ≡ true)
unfolding is_interrupted can_transition
is_interrupted_lem s =
    ((λ h. (ground (arith, s), ground (arith, s)), λ h. ground (arith, s)), λ h. ground (arith, s))

module _ {W : Type 0} (r : Recoverer W) where
  -- The job is announced as failed, and stored with the status failed.
  abbrev pub failing : Job → W → Option Error × W
  failing job w =
      let (now, w1) = r.now w in
      r.update (record job { status = failed; updated_at = now }) (announce_failure r job w1)

  -- What came of each of the jobs in turn, from the first world to the last.
  pub data Recovers : List Job → W → List JobOutcome → W → Type 0 where
    done : {w : W} → Recovers [] w [] w
    accepts :
        {job : Job} {jobs : List Job} {w v : W} {os : List JobOutcome}
        (enqueue : Bytes → W → Option Error × W)
        → job.status ≡ queued
        → r.enqueue ≡ some enqueue
        → (enqueue job.id w).0 ≡ none
        → Recovers jobs (enqueue job.id w).1 os v
        → Recovers (job ∷ jobs) w (accepted ∷ os) v
    refuses :
        {job : Job} {jobs : List Job} {w v : W} {os : List JobOutcome}
        (enqueue : Bytes → W → Option Error × W) (e : Error)
        → job.status ≡ queued
        → r.enqueue ≡ some enqueue
        → (enqueue job.id w).0 ≡ some e
        → Recovers jobs (enqueue job.id w).1 os v
        → Recovers (job ∷ jobs) w (refused ∷ os) v
    no_queue :
        {job : Job} {jobs : List Job} {w v : W} {os : List JobOutcome}
        → job.status ≡ queued
        → r.enqueue ≡ none
        → Recovers jobs w os v
        → Recovers (job ∷ jobs) w (passed_over ∷ os) v
    ends :
        {job : Job} {jobs : List Job} {w v : W} {os : List JobOutcome}
        → is_terminal job.status ≡ false
        → status_eq job.status queued ≡ false
        → Recovers jobs (failing job (reclaim_worktree r job w).1).1 os v
        → Recovers
            (job ∷ jobs)
            w
            (ended
                (reclaim_worktree r job w).0
                (not (is_some (failing job (reclaim_worktree r job w).1).0))
              ∷ os)
            v
    skips :
        {job : Job} {jobs : List Job} {w v : W} {os : List JobOutcome}
        → is_terminal job.status ≡ true
        → Recovers jobs w os v
        → Recovers (job ∷ jobs) w (passed_over ∷ os) v

  -- One job that led from a world and a report to others.
  abbrev Step : Job → RecoveryReport → W → RecoveryReport × W → Type 0
  Step job p w (q, w1) =
      (o : JobOutcome) × ((jobs : List Job) (os : List JobOutcome) (v : W)
        → Recovers jobs w1 os v
        → Recovers (job ∷ jobs) w (o ∷ os) v)
      × Counts (o ∷ []) p q
