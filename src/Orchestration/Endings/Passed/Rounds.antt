-- ===== src/Orchestration/Endings/Passed/Rounds.antt =====
-- About the verdict of the gate of Process, from round to round of its loop.
use rojo.Base.{
  ℕ, zero, suc, Bool, true, false, ◌||◌, List, [], ◌∷◌, ◌++◌, ◌≡◌, refl, inl, inr, arith, is_some,
}
use rojo.Jobs.Status.{
  Status, planning, preparing_workspace, implementing, verifying, reviewing, queued,
  waiting_for_revision, completed, failed, cancelled, status_eq,
}
use rojo.Orchestration.Env.{Env, job_ctx, revision_requested, step_started, step_completed}
use rojo.Orchestration.Run.{Run, M, revision, pure, ◌>>◌}
use rojo.Orchestration.Run.Keeps.{
  Hoare, Hoare-bind, Hoare-mono, Hoare-pure, Hoare-gets, Hoare-when, Hoare-modify, Hoare-if,
  Keeps-pure, Keeps-gets,
}
use rojo.Orchestration.Actions.{checkpoint, emit}
use rojo.Orchestration.Attempts.{verifying_stage}
use rojo.Orchestration.Reviewing.{Verdict, approved, revise, refused, act_on, reviewing_stage}
use rojo.Orchestration.Process.{stage, run_step, run_steps}
use rojo.Orchestration.Stable.{
  Hoare-fail_with, Keeps-fail_if, Keeps-checkpoint, Keeps-planning_stage,
}
use rojo.Orchestration.Stable.Stages.{Keeps-implementing_stage, Hoare-gated}
use rojo.Orchestration.Stable.Loop.{Keeps-review, Keeps-workspace_stage}
use rojo.Orchestration.Stable.Final.{works, works-append}
use rojo.Orchestration.Endings.Passed.{
  pending, ordered, makes_anew, pending-append, ordered-tail, ordered-append, Live, Leaving,
  Live-Kept, says, advances, decided, stable,
}

module _ {W : Type 0} (env : Env W) (verified : is_some env.verifier ≡ true) where
  -- What a round may append, and what then holds.
  abbrev Later : Bool → List Status → Run W → Type 0
  Later b added s = Live (pending added || b) s × (makes_anew added ≡ false) × (works added ≡ true)

  nothing_more : (b : Bool) → Hoare (Live b) (pure []) (Later b) Leaving
  nothing_more b = Hoare-pure [] (λ s h. (h, refl, refl))

  act_on-Later : (b : Bool) (v : Verdict) → Hoare (Live b) (act_on env v) (Later b) Leaving
  unfolding act_on
  act_on-Later b approved = nothing_more b
  act_on-Later b (refused e) = Hoare-fail_with ((stable env verified) b) e
  act_on-Later b (revise notes) =
      Hoare-bind (λ _. Live b) _ _ (((stable env verified) b).counts revision)
        λ _.
          Hoare-bind (λ _. Live true) _ _ (Hoare-modify _ (λ s h. (h.0, inl refl)))
            λ _.
              Hoare-bind (λ _. Live true) _ _ (Keeps-gets (λ s. s.revisions))
                λ n.
                  Hoare-bind (λ _. Live true) _ _
                    ((says env verified) true job_ctx (revision_requested n notes))
                    λ _. Hoare-pure _ (λ s h. (h, refl, refl))

  reviewing-Later : (b : Bool) → Hoare (Live b) (reviewing_stage env) (Later b) Leaving
  unfolding reviewing_stage
  reviewing-Later b =
      Hoare-bind (λ _. Live b) _ _ (Keeps-gets (λ s. s))
        λ s0. Hoare-if _ _ _ (nothing_more b) (
          Hoare-bind (λ _. Live b) _ _ (Keeps-review ((stable env verified) b).quiet _ _ _)
            (act_on-Later b))

  only :
      (a b : Bool) (m : M W (Unit {0}))
      → Hoare (Live a) m (λ _. Live b) Leaving
      → Hoare (Live a) (do m; pure []) (Later b) Leaving
  only a b m k = Hoare-bind (λ _. Live b) _ _ k λ _. nothing_more b

  verifying-Vouched : (b : Bool) → Hoare (Live b) (verifying_stage env) (λ _. Live false) Leaving
  unfolding verifying_stage
  verifying-Vouched b =
      Hoare-bind (λ cs s. Live b s × (cs ≡ s.cands)) _ _ (Hoare-gets (λ s. s.cands))
        λ cs.
          Hoare-when _ _
            (λ _.
              Hoare-mono (λ s h. h.0) (λ a s h. h)
                (Hoare-gated ((stable env verified) b) (Live false)
                  ((stable env verified) false).quiet
                  (λ r s v h. (h.0, inr ((decided env verified) r s v)))))
            (λ e s h. (h.0.0, inr (λ _. inl (ground (arith, h.1)))))

  weaken : (b : Bool) (s : Run W) → Live false s → Live b s
  weaken b s h = (h.0, elim (h.1) [ inl k ↦ cc | inr k ↦ inr k ])

  stage-Later :
      (to : Status) (ss : List Status)
      → ordered (to ∷ ss) ≡ true
      → Hoare (Live (pending (to ∷ ss))) (stage env to) (Later (pending ss)) Leaving
  unfolding stage
  stage-Later planning ss o = only _ _ _ (Keeps-planning_stage ((stable env verified) _))
  stage-Later preparing_workspace ss o = only _ _ _ (
      Keeps-workspace_stage ((stable env verified) (pending ss)) (λ ws s h. h)
        (λ cs s h. (h.0, inl (ground arith))))
  stage-Later implementing ss o = only _ _ _ (Keeps-implementing_stage ((stable env verified) _))
  stage-Later verifying ss o =
      only _ _ _ (Hoare-mono (λ s h. h) (λ a s h. weaken (pending ss) s h) (verifying-Vouched true))
  stage-Later reviewing ss o = reviewing-Later _
  stage-Later queued ss o = nothing_more _
  stage-Later waiting_for_revision ss o = nothing_more _
  stage-Later completed ss o = nothing_more _
  stage-Later failed ss o = nothing_more _
  stage-Later cancelled ss o = nothing_more _

  run_step-Later :
      (to : Status) (ss : List Status)
      → ordered (to ∷ ss) ≡ true
      → status_eq to completed ≡ false
      → Hoare (Live (pending (to ∷ ss))) (run_step env to) (Later (pending ss)) Leaving
  unfolding run_step
  run_step-Later to ss o n =
      Hoare-bind (λ _. Live (pending (to ∷ ss))) _ _
        (Keeps-checkpoint ((stable env verified) (pending (to ∷ ss))) env.ctx_error)
        λ _.
          Hoare-bind (λ _. Live (pending (to ∷ ss))) _ _
            ((says env verified) _ job_ctx (step_started to))
            λ _.
              Hoare-bind (λ _. Live (pending (to ∷ ss))) _ _ ((advances env verified) _ to n)
                λ p.
                  Hoare-bind (λ _. Live (pending (to ∷ ss))) _ _
                    (Keeps-fail_if ((stable env verified) (pending (to ∷ ss))) p)
                    λ _.
                      Hoare-bind (Later (pending ss)) _ _ (stage-Later to ss o)
                        λ added. record { at = λ s h. (rest added h.1 h.2).at s h.0 }
    where
      rest :
          (added : List Status)
          → makes_anew added ≡ false
          → works added ≡ true
          → Hoare
              (Live (pending added || pending ss))
              (do emit env job_ctx (step_completed to); checkpoint env env.pause; pure added)
              (Later (pending ss))
              Leaving
      rest added m w =
          Hoare-bind (λ _. Live (pending added || pending ss)) _ _
            ((says env verified) _ job_ctx (step_completed to))
            λ _.
              Hoare-bind (λ _. Live (pending added || pending ss)) _ _
                (Keeps-checkpoint ((stable env verified) _) env.pause)
                λ _. Hoare-pure added (λ s h. (h, m, w))

  pub run_steps-Vouched :
      (fuel : ℕ) (steps : List Status)
      → ordered steps ≡ true
      → works steps ≡ true
      → Hoare (Live (pending steps)) (run_steps env fuel steps) (λ _. Live false) Leaving
  unfolding run_steps
  run_steps-Vouched fuel [] o w = Keeps-pure tt
  run_steps-Vouched zero (to ∷ ss) o w = record { at = λ s h. Live-Kept _ s h }
  run_steps-Vouched (suc fuel) (to ∷ ss) o w =
      Hoare-bind (Later (pending ss)) _ _ (run_step-Later to ss o (ground arith)) λ added. record {
        at = λ s h.
            (run_steps-Vouched fuel (ss ++ added)
                (ordered-append ss added (ordered-tail to ss o) h.1)
                (works-append ss added (ground arith) h.2)).at
              s (rw (pending-append ss added) (h.0));
      }
