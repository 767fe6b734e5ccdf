-- ===== src/Orchestration/Endings/Fuel.antt =====
-- About the work list of Process (internal/orchestration/processor.go): what each round leaves of it.
use rojo.Base.{
  ℕ, zero, suc, ◌+◌, ◌-◌, ◌*◌, ◌≤◌, ◌<◌, Bytes, Bool, true, false, ltb, ◌&&◌, List, [], ◌∷◌, ◌++◌,
  length, length-append, Option, none, ◌≡◌, refl, ap, ◌∙◌, is_some, arith, if◌then◌else◌,
}
use rojo.Errors.{Error, Result}
use rojo.Jobs.Status.{
  Status, planning, preparing_workspace, implementing, verifying, reviewing, queued,
  waiting_for_revision, completed, failed, cancelled,
}
use rojo.Agents.Types.{ReviewRequest, Review}
use rojo.Orchestration.Candidate.{Candidate}
use rojo.Orchestration.Env.{
  Env, Call, Payload, job_completed, job_ctx, job_started, revision_requested, step_started,
  step_completed,
}
use rojo.Orchestration.Run.{Run, M, revision, queue_wait, pure, ◌>>◌, panic, finish}
use rojo.Orchestration.Run.Keeps.{
  Left, spent, Hoare, Keeps, IsFrame, Hoare-bind, Hoare-and, Hoare-mono, Hoare-pure, Hoare-gets,
  Hoare-modify, Hoare-if, Keeps-gets,
}
use rojo.Orchestration.Run.Yields.{Yields, yields_rules}
use rojo.Orchestration.Actions.{emit}
use rojo.Orchestration.Reviewing.{
  Verdict, approved, revise, refused, decide, nil_pointer, review_failed_gate, ask_reviewer,
  review_passed_gate, review, act_on, reviewing_stage, max_revisions, could_not_run,
}
use rojo.Orchestration.Process.{stage, run_step, run_steps, complete, body}
use rojo.Orchestration.Stable.{
  Stable, Hoare-fail_with, Keeps-fail_if, Keeps-checkpoint, Keeps-planning_stage,
}
use rojo.Orchestration.Stable.Methods.{Keeps-emit}
use rojo.Orchestration.Stable.Inert.{IsInert, inert_stable, Keeps-advance}
use rojo.Orchestration.Stable.Stages.{Keeps-implementing_stage, Keeps-verifying_stage}
use rojo.Orchestration.Stable.Loop.{Keeps-review, Keeps-workspace_stage}

abbrev asks_again : Verdict → Bool
asks_again (revise notes) = true
asks_again _ = false

-- A revision is asked for only where one may be.
abbrev Allowed : Bool → Verdict → Type 0
Allowed can_revise v = asks_again v ≡ true → can_revise ≡ true

decide-Allowed : (id : Bytes) (b : Bool) (r : Review) → Allowed b (decide id b r)
unfolding decide
decide-Allowed id b r = ground arith

gate-Allowed :
    (c : Candidate) (b : Bool) (e x : Error) (notes : Bytes)
    → Allowed b (if could_not_run c then refused e else if b then revise notes else refused x)
gate-Allowed c b e x notes = ground arith

module _ {W : Type 0} where
  -- Anything but an exhausted loop.
  abbrev pub NeverSpent : Left → Run W → Type 0
  NeverSpent spent s = ⊥
  NeverSpent _ s = Unit {0}

module _ {W : Type 0} (env : Env W) where
  ask_reviewer-Allowed :
      (reviewer : ReviewRequest → W → Call (Result Review) × W) (c : Candidate) (b : Bool)
      (d : Bytes)
      → Yields (Allowed b) (ask_reviewer env reviewer c b d)
  unfolding ask_reviewer
  ask_reviewer-Allowed reviewer c b d = search (yields_rules, decide-Allowed, no_again) depth 12
    where
      no_again : (e : Error) → Allowed b (refused e)
      no_again e h = cc

  nil_pointer-Allowed : (b : Bool) → Yields {W = W} (Allowed b) nil_pointer
  unfolding nil_pointer panic
  nil_pointer-Allowed b = record { at = λ s h. tt }

  review-Allowed :
      (best : Option Candidate) (g : Option Error) (b : Bool)
      → Yields (Allowed b) (review env best g b)
  unfolding review review_passed_gate review_failed_gate
  review-Allowed best g b =
      search (yields_rules, ask_reviewer-Allowed, nil_pointer-Allowed, gate-Allowed, no_approval)
        depth 12
    where
      no_approval : Allowed b approved
      no_approval h = cc

  abbrev Revised : ℕ → Run W → Type 0
  Revised r s = s.revisions ≡ r

  inert : (r : ℕ) → IsInert (Revised r)
  inert r = record { world = λ s w h. h; job = λ j s h. h; trace = λ e s h. h }

  stable : (r : ℕ) → Stable env (Revised r) NeverSpent
  stable r =
      inert_stable env (inert r) (record { anywhere = λ s w h. h; breaks = λ s h. tt }) (λ s h. tt)
        (λ p s h. h) (λ files tree s h. h) (λ best problem s v h. h) (λ cs s e h. h)

  -- What is left to do after a round, in steps: those that it appended, and those that another
  -- revision would append.
  abbrev LeftOver : ℕ → List Status → Run W → Type 0
  LeftOver r added s = length added + 4 * (max_revisions - s.revisions) ≤ 4 * (max_revisions - r)

  nothing_more : (r : ℕ) → Hoare (Revised r) (pure []) (LeftOver r) NeverSpent
  nothing_more r = Hoare-pure [] (λ s h. omega arith)

  act_on-LeftOver :
      (r : ℕ) (v : Verdict)
      → (asks_again v ≡ true → r < max_revisions)
      → Hoare (Revised r) (act_on env v) (LeftOver r) NeverSpent
  unfolding act_on
  act_on-LeftOver r approved h = nothing_more r
  act_on-LeftOver r (refused e) h = Hoare-fail_with (stable r) e
  act_on-LeftOver r (revise notes) h =
      Hoare-bind (λ _. Revised r) _ _ ((stable r).counts revision)
        λ _.
          Hoare-bind (λ _. Revised (suc r)) _ _ (Hoare-modify _ (λ s k. ap suc k))
            λ _.
              Hoare-bind (λ _. Revised (suc r)) _ _ (Keeps-gets (λ s. s.revisions))
                λ n.
                  Hoare-bind (λ _. Revised (suc r)) _ _
                    ((stable (suc r)).emits job_ctx (revision_requested n notes) refl)
                    λ _. Hoare-pure _ (λ s k. omega (arith, h refl))

  revise-Allowed :
      (i : Bool) (r n : ℕ) (v : Verdict)
      → r ≡ n
      → Allowed (i && ltb r max_revisions) v
      → asks_again v ≡ true
      → n < max_revisions
  revise-Allowed i r n v e a h = ground (arith, a h)

  reviewing-LeftOver : (r : ℕ) → Hoare (Revised r) (reviewing_stage env) (LeftOver r) NeverSpent
  unfolding reviewing_stage
  reviewing-LeftOver r =
      Hoare-bind (λ s0 s. Revised r s × (s0 ≡ s)) _ _ (Hoare-gets (λ s. s))
        λ s0. Hoare-if _ _ _ (Hoare-mono (λ s h. h.0) (λ added s h. h) (nothing_more r)) (
          Hoare-bind
            (λ v s.
              Revised r s
              × (s0.revisions ≡ r)
              × Allowed (is_some env.implementor && ltb s0.revisions max_revisions) v)
            _ _ (again s0)
            λ v. record {
              at = λ s h.
                  (act_on-LeftOver r v
                      (revise-Allowed (is_some env.implementor) s0.revisions r v h.1 h.2)).at
                    s h.0;
            })
    where
      again :
          (s0 : Run W)
          → Hoare
              (λ s. Revised r s × (s0 ≡ s))
              (review env s0.winner s0.gate_error
                (is_some env.implementor && ltb s0.revisions max_revisions))
              (λ v s.
                Revised r s
                × (s0.revisions ≡ r)
                × Allowed (is_some env.implementor && ltb s0.revisions max_revisions) v)
              NeverSpent
      again s0 = record {
        at = λ s h.
            let fact : s0.revisions ≡ r = ap (λ t. t.revisions) h.1 ∙ h.0 in
            (Hoare-mono (λ t k. k) (λ v t k. (k.0, fact, k.1))
                (Hoare-and (Keeps-review (stable r).quiet _ _ _) (review-Allowed _ _ _))).at
              s (h.0, tt);
      }

  only :
      (r : ℕ) (m : M W (Unit {0}))
      → Keeps (Revised r) NeverSpent m
      → Hoare (Revised r) (do m; pure []) (LeftOver r) NeverSpent
  only r m k = Hoare-bind (λ _. Revised r) _ _ k λ _. nothing_more r

  stage-LeftOver : (r : ℕ) (to : Status) → Hoare (Revised r) (stage env to) (LeftOver r) NeverSpent
  unfolding stage
  stage-LeftOver r planning = only r _ (Keeps-planning_stage (stable r))
  stage-LeftOver r preparing_workspace =
      only r _ (Keeps-workspace_stage (stable r) (λ ws s h. h) (λ cs s h. h))
  stage-LeftOver r implementing = only r _ (Keeps-implementing_stage (stable r))
  stage-LeftOver r verifying = only r _ (Keeps-verifying_stage (stable r))
  stage-LeftOver r reviewing = reviewing-LeftOver r
  stage-LeftOver r queued = nothing_more r
  stage-LeftOver r waiting_for_revision = nothing_more r
  stage-LeftOver r completed = nothing_more r
  stage-LeftOver r failed = nothing_more r
  stage-LeftOver r cancelled = nothing_more r

  leftover_frame : (r : ℕ) (added : List Status) → IsFrame (LeftOver r added) NeverSpent
  leftover_frame r added = record { anywhere = λ s w h. h; breaks = λ s h. tt }

  run_step-LeftOver :
      (r : ℕ) (to : Status) → Hoare (Revised r) (run_step env to) (LeftOver r) NeverSpent
  unfolding run_step
  run_step-LeftOver r to =
      Hoare-bind (λ _. Revised r) _ _ (Keeps-checkpoint (stable r) env.ctx_error)
        λ _.
          Hoare-bind (λ _. Revised r) _ _ ((stable r).emits job_ctx (step_started to) refl)
            λ _.
              Hoare-bind (λ _. Revised r) _ _ (Keeps-advance env (inert r) calm to)
                λ p.
                  Hoare-bind (λ _. Revised r) _ _ (Keeps-fail_if (stable r) p)
                    λ _. Hoare-bind (LeftOver r) _ _ (stage-LeftOver r to) λ added.
                      Hoare-bind (λ _. LeftOver r added) _ _
                        ((lasting r added).emits job_ctx (step_completed to) refl)
                        λ _.
                          Hoare-bind (λ _. LeftOver r added) _ _
                            (Keeps-checkpoint (lasting r added) env.pause)
                            λ _. Hoare-pure added (λ s h. h)
    where
      calm : IsFrame {W = W} (Revised r) NeverSpent
      calm = record { anywhere = λ s w h. h; breaks = λ s h. tt }

      lasting : (r : ℕ) (added : List Status) → Stable env (LeftOver r added) NeverSpent
      lasting r added =
          inert_stable env (record { world = λ s w h. h; job = λ j s h. h; trace = λ e s h. h })
            (leftover_frame r added) (λ s h. tt) (λ p s h. h) (λ files tree s h. h)
            (λ best problem s v h. h) (λ cs s e h. h)

  -- The rounds left are enough for the steps left, with those that may still be appended.
  abbrev Fits : ℕ → List Status → Run W → Type 0
  Fits fuel steps s = length steps + 4 * (max_revisions - s.revisions) ≤ fuel

  run_steps-NeverSpent :
      (fuel : ℕ) (steps : List Status)
      → Hoare (Fits fuel steps) (run_steps env fuel steps) (λ _ _. Unit {0}) NeverSpent
  unfolding run_steps
  run_steps-NeverSpent fuel [] = Hoare-pure tt (λ s h. tt)
  run_steps-NeverSpent zero (to ∷ steps) = record { at = λ s h. omega arith }
  run_steps-NeverSpent (suc fuel) (to ∷ steps) = record {
    at = λ s h.
        (Hoare-bind (LeftOver s.revisions) _ _ (run_step-LeftOver s.revisions to) λ added. record {
          at = λ t k.
              (run_steps-NeverSpent fuel (steps ++ added)).at t
                (omega (arith, length-append steps added));
        }).at
          s refl;
  }

  abbrev Whatever : Run W → Type 0
  Whatever s = Unit {0}

  calm : IsFrame Whatever NeverSpent
  calm = record { anywhere = λ s w h. tt; breaks = λ s h. tt }

  calm_inert : IsInert Whatever
  calm_inert = record { world = λ s w h. tt; job = λ j s h. tt; trace = λ e s h. tt }

  whatever : Stable env Whatever NeverSpent
  whatever =
      inert_stable env calm_inert calm (λ s h. tt) (λ p s h. tt) (λ files tree s h. tt)
        (λ best problem s v h. tt) (λ cs s e h. tt)

  complete-NeverSpent : Hoare (λ s. Unit {0}) (complete env) (λ _ _. Unit {0}) NeverSpent
  unfolding complete
  complete-NeverSpent =
      Hoare-bind (λ _. Whatever) _ _ (Keeps-checkpoint whatever env.ctx_error)
        λ _.
          Hoare-bind (λ _. Whatever) _ _ (Keeps-gets (λ s. s.gate_error))
            λ g.
              Hoare-bind (λ _. Whatever) _ _ (Keeps-fail_if whatever g)
                λ _.
                  Hoare-bind (λ _. Whatever) _ _
                    (whatever.emits job_ctx (step_started completed) refl)
                    λ _.
                      Hoare-bind (λ _. Whatever) _ _ (Keeps-advance env calm_inert calm completed)
                        λ p.
                          Hoare-bind (λ _. Whatever) _ _ (Keeps-fail_if whatever p)
                            λ _.
                              Hoare-bind (λ _. Whatever) _ _ (says (step_completed completed))
                                λ _.
                                  Hoare-bind (λ _. Whatever) _ _ (says job_completed) λ _. finishes
    where
      says : (p : Payload) → Keeps Whatever NeverSpent (emit env job_ctx p)
      says p = Keeps-emit env calm job_ctx p (λ id s h. tt)

      finishes : Keeps {A = Unit {0}} Whatever NeverSpent (finish none)
      finishes = record { at = λ s h. unfold finish in tt }

  -- The loop of a fresh run ends by itself.
  pub body-NeverSpent : Hoare (λ s. s.revisions ≡ 0) (body env) (λ _ _. Unit {0}) NeverSpent
  unfolding body
  body-NeverSpent =
      Hoare-bind (λ _. Revised 0) _ _ ((stable 0).counts queue_wait)
        λ _.
          Hoare-bind (λ _. Revised 0) _ _ ((stable 0).emits job_ctx job_started refl)
            λ _.
              Hoare-bind (λ _ _. Unit {0}) _ _
                (Hoare-mono (λ s h. omega arith) (λ a s h. h) (run_steps-NeverSpent _ _))
                λ _. complete-NeverSpent
