-- ===== src/Jobs/Transitions.antt =====
-- About Transition of internal/jobs/job.go: what it does on each pair of statuses.
use rojo.Base.{ℕ, Bool-cases, true, ◌≡◌, inl, inr, arith}
use rojo.Errors.{Error, ok, err}
use rojo.Jobs.Status.{
  Status, Job, failed, cancelled, can_transition, transition, illegal_transition,
}
use rojo.Jobs.Lifecycle.{
  is_terminal, Edge, Edge_of_can_transition, live-to-failed, live-to-cancelled,
  can_transition_of_Edge,
}

-- A transition succeeds exactly on the edges. It sets the status and the time of the update and
-- nothing else, and a refused one reports the job and both statuses.
pub transition_lem :
    (now : ℕ) (j : Job) (t : Status)
    → (Edge j.status t → transition now j t ≡ ok (record j { status = t; updated_at = now }))
      × ((Edge j.status t → ⊥) → transition now j t ≡ err (illegal_transition j t))
unfolding transition
transition_lem now j t = (
  λ e. rw (can_transition_of_Edge e),
  λ n. elim (Bool-cases (can_transition j.status t)) [
    | inl c ↦ absurd (n (Edge_of_can_transition j.status t c))
    | inr c ↦ rw c
  ],
)

pub transition-ok :
    (now : ℕ) (j : Job) (t : Status) {j' : Job}
    → transition now j t ≡ ok j'
    → Edge j.status t × (j'.status ≡ t)
unfolding transition
transition-ok now j t h = elim (Bool-cases (can_transition j.status t)) [
  | inl c ↦ (Edge_of_can_transition j.status t c, ground (arith, c, h))
  | inr c ↦ ground (arith, c, h)
]

pub transition-failed-err :
    (now : ℕ) (j : Job) {e : Error} → transition now j failed ≡ err e → is_terminal j.status ≡ true
unfolding transition
transition-failed-err now j h = elim (Bool-cases (is_terminal j.status)) [
  | inl c ↦ c
  | inr c ↦ ground (arith, live-to-failed j.status c, h)
]

pub transition-cancelled-err :
    (now : ℕ) (j : Job) {e : Error}
    → transition now j cancelled ≡ err e
    → is_terminal j.status ≡ true
unfolding transition
transition-cancelled-err now j h = elim (Bool-cases (is_terminal j.status)) [
  | inl c ↦ c
  | inr c ↦ ground (arith, live-to-cancelled j.status c, h)
]
