-- ===== src/Jobs/Lifecycle.antt =====
-- What the transition table of internal/jobs means: an independent description of its edges, the
-- terminal statuses, and what every way to `completed` passes.
use rojo.Base.{Bool, true, false, ◌≢◌, List, [], ◌∷◌, ◌≡◌, refl, ◌↔◌, ◌⊎◌, inl, inr, arith, ◌||◌}
use rojo.Jobs.Status.{
  Status, status_eq, queued, planning, preparing_workspace, implementing, verifying, reviewing,
  waiting_for_revision, completed, failed, cancelled, can_transition,
}

abbrev pub IsTerminal : Status → Type 0
IsTerminal s = (s ≡ completed) ⊎ (s ≡ failed) ⊎ (s ≡ cancelled)

abbrev pub is_terminal : Status → Bool
is_terminal completed = true
is_terminal failed = true
is_terminal cancelled = true
is_terminal _ = false

-- The edges of the life of a job, one constructor for each reason to move.
pub data Edge : Status → Status → Type 0 where
  start : Edge queued planning
  prepare : Edge planning preparing_workspace
  implement : Edge preparing_workspace implementing
  verify : Edge implementing verifying
  review : Edge verifying reviewing
  approve : Edge reviewing completed
  revise : Edge reviewing waiting_for_revision
  redo : Edge waiting_for_revision implementing
  fail : {s : Status} → is_terminal s ≡ false → Edge s failed
  cancel : {s : Status} → is_terminal s ≡ false → Edge s cancelled

pub data Reach (s : Status) : Status → Type 0 where
  here : Reach s s
  then : {t u : Status} → Reach s t → Edge t u → Reach s u

ruleset edges = (start, prepare, implement, verify, review, approve, revise, redo, fail, cancel)

pub Edge_of_can_transition : (a b : Status) → can_transition a b ≡ true → Edge a b
unfolding can_transition
Edge_of_can_transition queued planning h = start
Edge_of_can_transition planning preparing_workspace h = prepare
Edge_of_can_transition preparing_workspace implementing h = implement
Edge_of_can_transition implementing verifying h = verify
Edge_of_can_transition verifying reviewing h = review
Edge_of_can_transition reviewing completed h = approve
Edge_of_can_transition reviewing waiting_for_revision h = revise
Edge_of_can_transition waiting_for_revision implementing h = redo
Edge_of_can_transition queued failed h = fail refl
Edge_of_can_transition planning failed h = fail refl
Edge_of_can_transition preparing_workspace failed h = fail refl
Edge_of_can_transition implementing failed h = fail refl
Edge_of_can_transition verifying failed h = fail refl
Edge_of_can_transition reviewing failed h = fail refl
Edge_of_can_transition waiting_for_revision failed h = fail refl
Edge_of_can_transition queued cancelled h = cancel refl
Edge_of_can_transition planning cancelled h = cancel refl
Edge_of_can_transition preparing_workspace cancelled h = cancel refl
Edge_of_can_transition implementing cancelled h = cancel refl
Edge_of_can_transition verifying cancelled h = cancel refl
Edge_of_can_transition reviewing cancelled h = cancel refl
Edge_of_can_transition waiting_for_revision cancelled h = cancel refl
Edge_of_can_transition _ _ h = cc

pub live-to-failed : (s : Status) → is_terminal s ≡ false → can_transition s failed ≡ true
unfolding can_transition
live-to-failed queued h = refl
live-to-failed _ h = ground arith

pub live-to-cancelled : (s : Status) → is_terminal s ≡ false → can_transition s cancelled ≡ true
unfolding can_transition
live-to-cancelled queued h = refl
live-to-cancelled _ h = ground arith

pub can_transition_of_Edge : {a b : Status} → Edge a b → can_transition a b ≡ true
unfolding can_transition
can_transition_of_Edge start = refl
can_transition_of_Edge prepare = refl
can_transition_of_Edge implement = refl
can_transition_of_Edge verify = refl
can_transition_of_Edge review = refl
can_transition_of_Edge approve = refl
can_transition_of_Edge revise = refl
can_transition_of_Edge redo = refl
can_transition_of_Edge (fail {s} h) = live-to-failed s h
can_transition_of_Edge (cancel {s} h) = live-to-cancelled s h

-- The table allows a move exactly when it is an edge of the life of a job.
pub can_transition_iff_Edge : (a b : Status) → (can_transition a b ≡ true) ↔ Edge a b
can_transition_iff_Edge a b = (Edge_of_can_transition a b, can_transition_of_Edge)

no_edge_from_terminal : {a b : Status} → Edge a b → is_terminal a ≡ false
no_edge_from_terminal start = refl
no_edge_from_terminal prepare = refl
no_edge_from_terminal implement = refl
no_edge_from_terminal verify = refl
no_edge_from_terminal review = refl
no_edge_from_terminal approve = refl
no_edge_from_terminal revise = refl
no_edge_from_terminal redo = refl
no_edge_from_terminal (fail h) = h
no_edge_from_terminal (cancel h) = h

-- A terminal status is never left.
pub terminal_absorbs : {a b : Status} → Reach a b → is_terminal a ≡ true → b ≡ a
terminal_absorbs here h = refl
terminal_absorbs {a} (then {t} r e) h =
    let at : t ≡ a = terminal_absorbs r h in cc (no_edge_from_terminal e, at, h)

-- From every status that is not terminal there is a way to `completed`.
pub live-reaches-completed : (s : Status) → is_terminal s ≡ false → Reach s completed
live-reaches-completed queued h =
    then (then (then (then (then (then here start) prepare) implement) verify) review) approve
live-reaches-completed planning h =
    then (then (then (then (then here prepare) implement) verify) review) approve
live-reaches-completed preparing_workspace h =
    then (then (then (then here implement) verify) review) approve
live-reaches-completed implementing h = then (then (then here verify) review) approve
live-reaches-completed verifying h = then (then here review) approve
live-reaches-completed reviewing h = then here approve
live-reaches-completed waiting_for_revision h =
    then (then (then (then here redo) verify) review) approve
live-reaches-completed _ h = cc

-- The history of a job: each status is reached from the one before it by the table.
abbrev pub IsHistory : Status → List Status → Type 0
IsHistory s [] = Unit
IsHistory s (t ∷ ts) = (can_transition s t ≡ true) × IsHistory t ts

abbrev pub last_of : Status → List Status → Status
last_of s [] = s
last_of s (t ∷ ts) = last_of t ts

abbrev pub visits : Status → List Status → Bool
visits s [] = false
visits s (t ∷ ts) = status_eq t s || visits s ts

abbrev before_gate : Status → Bool
before_gate queued = true
before_gate planning = true
before_gate preparing_workspace = true
before_gate implementing = true
before_gate waiting_for_revision = true
before_gate _ = false

step_before_gate :
    (a b : Status)
    → can_transition a b ≡ true
    → before_gate a ≡ true
    → (b ≡ verifying) ⊎ (b ≡ failed) ⊎ (b ≡ cancelled) ⊎ (before_gate b ≡ true)
unfolding can_transition
step_before_gate queued b h g = ground arith
step_before_gate _ b h g = ground arith

history_dead :
    (s : Status) (ts : List Status) → IsHistory s ts → is_terminal s ≡ true → last_of s ts ≡ s
unfolding can_transition
history_dead s [] h d = refl
history_dead completed (t ∷ ts) h d = cc (h.0)
history_dead failed (t ∷ ts) h d = cc (h.0)
history_dead cancelled (t ∷ ts) h d = cc (h.0)
history_dead _ (t ∷ ts) h d = cc

before_gate-verifying :
    (s : Status) (ts : List Status)
    → IsHistory s ts
    → before_gate s ≡ true
    → last_of s ts ≡ completed
    → visits verifying ts ≡ true
before_gate-verifying s [] h g e = ground arith
before_gate-verifying s (t ∷ ts) h g e = elim (step_before_gate s t h.0 g) [
  | inl at ↦ rw at
  | inr (inl dead) ↦ let end : last_of t ts ≡ t = history_dead t ts h.1 (ground arith) in cc
  | inr (inr (inl dead)) ↦ let end : last_of t ts ≡ t = history_dead t ts h.1 (ground arith) in cc
  | inr (inr (inr again)) ↦
      let rest : visits verifying ts ≡ true = before_gate-verifying t ts h.1 again e in ground arith
]

into_completed : (s : Status) → can_transition s completed ≡ true → s ≡ reviewing
unfolding can_transition
into_completed queued h = cc
into_completed _ h = ground arith

completed-reviewing :
    (s : Status) (ts : List Status)
    → IsHistory s ts
    → s ≢ completed
    → last_of s ts ≡ completed
    → (s ≡ reviewing) ⊎ (visits reviewing ts ≡ true)
completed-reviewing s [] h n e = absurd (n e)
completed-reviewing s (completed ∷ ts) h n e = inl (into_completed s h.0)
completed-reviewing s (t ∷ ts) h n e = ground (arith, completed-reviewing t ts h.1, ts)

-- Every history of a queued job that ends completed has passed verification and review.
pub completed_history :
    (ts : List Status)
    → IsHistory queued ts
    → last_of queued ts ≡ completed
    → (visits verifying ts ≡ true) × (visits reviewing ts ≡ true)
completed_history ts h e = (
  before_gate-verifying queued ts h refl e,
  ground (arith, completed-reviewing queued ts h (λ q. cc) e),
)
