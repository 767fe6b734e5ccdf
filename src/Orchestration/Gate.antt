-- ===== src/Orchestration/Gate.antt =====
-- What review (internal/orchestration/review.go) does with a candidate that failed its gate, and
-- what it approves.
use rojo.Base.{Bool, Bool-cases, true, false, Option, none, some, ◌≡◌, refl, ◌⊎◌, inl, inr}
use rojo.Errors.{Error}
use rojo.Orchestration.Candidate.{Candidate}
use rojo.Orchestration.Env.{Env}
use rojo.Orchestration.Run.{Run, Exit, next, panicking, pure, on_option, panic}
use rojo.Orchestration.Reviewing.{
  Verdict, revise, refused, review, review_failed_gate, nil_pointer, could_not_run, gate_feedback,
}

-- The verdict on an attempt that failed its gate, by what may still be done about it.
abbrev pub Verdicts : Option Candidate → Error → Bool → Exit Verdict → Type 0
Verdicts (some c) why b (next (revise notes)) =
    (b ≡ true) × (could_not_run c ≡ false) × (notes ≡ gate_feedback c)
Verdicts (some c) why b (next (refused e)) = (could_not_run c ≡ true) ⊎ ((b ≡ false) × (e ≡ why))
Verdicts none why b (next (refused e)) = (b ≡ false) × (e ≡ why)
Verdicts none why b (panicking v) = b ≡ true
Verdicts _ why b _ = ⊥

module _ {W : Type 0} (env : Env W) where
  -- A candidate that failed its gate is never approved, and no collaborator is called about it: the
  -- state is left as it was. It is sent back, with the output of the failing checks, only where a
  -- revision may be asked for and the checks could be run; else the job fails. Without any candidate
  -- the attempt to send one back panics.
  pub review-failed_gate :
      (best : Option Candidate) (why : Error) (can_revise : Bool) (s : Run W)
      → ((review env best (some why) can_revise s).1 ≡ s)
        × Verdicts best why can_revise (review env best (some why) can_revise s).0
  unfolding review review_failed_gate on_option pure nil_pointer panic
  review-failed_gate none why true s = (refl, refl)
  review-failed_gate none why false s = (refl, (refl, refl))
  review-failed_gate (some c) why true s = elim (Bool-cases (could_not_run c)) [
    | inl h ↦ rw h (refl, inl h)
    | inr h ↦ rw h (refl, (refl, h, refl))
  ]
  review-failed_gate (some c) why false s = elim (Bool-cases (could_not_run c)) [
    | inl h ↦ rw h (refl, inl h)
    | inr h ↦ rw h (refl, inr (refl, refl))
  ]
