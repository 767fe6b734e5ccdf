-- ===== src/Orchestration/Recovery/Outcomes.antt =====
-- About recovery.go: what may come of a job, and the report that counts it.
use rojo.Base.{
  ℕ, suc, ◌+◌, Bool, true, false, not, List, [], ◌∷◌, Option, none, some, ◌≡◌, arith, if◌then◌else◌,
  is_some,
}
use rojo.Errors.{Error}
use rojo.Orchestration.Recovery.{RecoveryReport}

-- What came of a job: the queue took it or refused it; it was interrupted, and a worktree of it was
-- reclaimed or not, and it was failed or could not be; or nothing was done.
pub data JobOutcome : Type 0 where
  accepted : JobOutcome
  refused : JobOutcome
  ended : (reclaimed closed : Bool) → JobOutcome
  passed_over : JobOutcome

abbrev pub was_accepted : JobOutcome → Bool
was_accepted accepted = true
was_accepted _ = false

abbrev pub was_refused : JobOutcome → Bool
was_refused refused = true
was_refused _ = false

abbrev pub was_reclaimed : JobOutcome → Bool
was_reclaimed (ended reclaimed closed) = reclaimed
was_reclaimed _ = false

abbrev pub was_failed : JobOutcome → Bool
was_failed (ended reclaimed closed) = closed
was_failed _ = false

abbrev pub number : (JobOutcome → Bool) → List JobOutcome → ℕ
number test [] = 0
number test (o ∷ os) = (if test o then 1 else 0) + number test os

-- The report `q` is `p` with these outcomes counted, each in the field that is named after it.
pub record Counts (os : List JobOutcome) (p q : RecoveryReport) : Type 0 where
  pub requeued : q.requeued ≡ p.requeued + number was_accepted os
  pub unqueueable : q.unqueueable ≡ p.unqueueable + number was_refused os
  pub reclaimed : q.worktrees_reclaimed ≡ p.worktrees_reclaimed + number was_reclaimed os
  pub failed_now : q.failed_interrupted ≡ p.failed_interrupted + number was_failed os

-- The outcome of a call that answers an error or none.
abbrev pub queue_outcome : Option Error → JobOutcome
queue_outcome none = accepted
queue_outcome (some e) = refused

pub passed_over-Counts : (p : RecoveryReport) → Counts (passed_over ∷ []) p p
passed_over-Counts p = record {
  requeued = omega arith;
  unqueueable = omega arith;
  reclaimed = omega arith;
  failed_now = omega arith;
}

pub queue_outcome-Counts :
    (problem : Option Error) (p : RecoveryReport)
    → Counts (queue_outcome problem ∷ []) p (elim problem [
      | none ↦ record p { requeued = suc p.requeued }
      | some e ↦ record p { unqueueable = suc p.unqueueable }
    ])
queue_outcome-Counts none p = record {
  requeued = omega arith;
  unqueueable = omega arith;
  reclaimed = omega arith;
  failed_now = omega arith;
}
queue_outcome-Counts (some e) p = record {
  requeued = omega arith;
  unqueueable = omega arith;
  reclaimed = omega arith;
  failed_now = omega arith;
}

pub ended-Counts :
    (problem : Option Error) (reclaimed : Bool) (p : RecoveryReport)
    → Counts (ended reclaimed (not (is_some problem)) ∷ []) p (
        let p1 : RecoveryReport =
          if reclaimed then record p { worktrees_reclaimed = suc p.worktrees_reclaimed } else p in
        elim problem [
          | none ↦ record p1 { failed_interrupted = suc p1.failed_interrupted }
          | some e ↦ p1
        ])
ended-Counts none true p = record {
  requeued = omega arith;
  unqueueable = omega arith;
  reclaimed = omega arith;
  failed_now = omega arith;
}
ended-Counts none false p = record {
  requeued = omega arith;
  unqueueable = omega arith;
  reclaimed = omega arith;
  failed_now = omega arith;
}
ended-Counts (some e) true p = record {
  requeued = omega arith;
  unqueueable = omega arith;
  reclaimed = omega arith;
  failed_now = omega arith;
}
ended-Counts (some e) false p = record {
  requeued = omega arith;
  unqueueable = omega arith;
  reclaimed = omega arith;
  failed_now = omega arith;
}

pub Counts-trans :
    (o : JobOutcome) (os : List JobOutcome) (p q t : RecoveryReport)
    → Counts (o ∷ []) p q
    → Counts os q t
    → Counts (o ∷ os) p t
Counts-trans o os p q t h k = record {
  requeued = omega (arith, h.requeued, k.requeued);
  unqueueable = omega (arith, h.unqueueable, k.unqueueable);
  reclaimed = omega (arith, h.reclaimed, k.reclaimed);
  failed_now = omega (arith, h.failed_now, k.failed_now);
}
