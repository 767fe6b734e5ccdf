-- ===== src/Orchestration/Stable/Final.antt =====
-- What the whole loop of Process keeps, and what then holds when Process returns.
use rojo.Base.{
  ℕ, zero, suc, Bytes, Bool, true, false, List, [], ◌∷◌, ◌++◌, ◌≡◌, refl, arith, if◌then◌else◌,
}
use rojo.Jobs.Status.{
  Status, completed, planning, preparing_workspace, implementing, verifying, reviewing, status_eq,
  queued, waiting_for_revision, failed, cancelled,
}
use rojo.Orchestration.Candidate.{Workspace, Candidate}
use rojo.Orchestration.Env.{Env, job_ctx, job_started, WorkspaceManager}
use rojo.Orchestration.Run.{Run, cleaned, released, queue_wait, pure, ◌>>◌, finish, note, ask}
use rojo.Orchestration.Run.Keeps.{
  Always, Always-at, Left, spent, Hoare, Keeps, IsFrame, Keeps-bind, Keeps-pure, Keeps-when_some,
  Keeps-note, Keeps-when, Hoare-bind, Hoare-and, Hoare-mono, keeps_rules,
}
use rojo.Orchestration.Run.Yields.{Yields, Yields-bind, Yields-then, Yields-pure, yields_rules}
use rojo.Orchestration.Actions.{fail_with}
use rojo.Orchestration.Stages.{workspace_stage}
use rojo.Orchestration.Reviewing.{Verdict, approved, revise, refused, act_on, reviewing_stage}
use rojo.Orchestration.Process.{
  stage, run_step, run_steps, complete, body, cleanup_each, cleanup, guarded, initial_steps,
  step_fuel,
}
use rojo.Orchestration.Stable.{Stable}
use rojo.Orchestration.Stable.Loop.{Revises, Keeps-run_step}

-- The loop never walks to `completed` by itself.
abbrev pub works : List Status → Bool
works [] = true
works (to ∷ steps) = if status_eq to completed then false else works steps

pub works-append : (a b : List Status) → works a ≡ true → works b ≡ true → works (a ++ b) ≡ true
works-append [] b h k = k
works-append (to ∷ a) b h k = ground (arith, works-append a b)

module _ {W : Type 0} (env : Env W) where
  act_on-works : (v : Verdict) → Yields (λ l. works l ≡ true) (act_on env v)
  unfolding act_on fail_with
  act_on-works approved = Yields-pure [] refl
  act_on-works (refused e) = Yields-bind _ _ λ r. record { at = λ s _. unfold finish in tt }
  act_on-works (revise notes) = search yields_rules depth 9

  stage-works : (to : Status) → Yields (λ l. works l ≡ true) (stage env to)
  unfolding stage reviewing_stage
  stage-works planning = Yields-bind _ _ λ _. Yields-pure [] refl
  stage-works preparing_workspace = Yields-bind _ _ λ _. Yields-pure [] refl
  stage-works implementing = Yields-bind _ _ λ _. Yields-pure [] refl
  stage-works verifying = Yields-bind _ _ λ _. Yields-pure [] refl
  stage-works reviewing = search (yields_rules, act_on-works) depth 9
  stage-works queued = Yields-pure [] refl
  stage-works waiting_for_revision = Yields-pure [] refl
  stage-works completed = Yields-pure [] refl
  stage-works failed = Yields-pure [] refl
  stage-works cancelled = Yields-pure [] refl

  pub run_step-works : (to : Status) → Yields (λ l. works l ≡ true) (run_step env to)
  unfolding run_step
  run_step-works to = Yields-bind _ _ λ _. Yields-bind _ _ λ _. Yields-bind _ _ λ _.
      Yields-bind _ _ λ _.
        Yields-then _ _ (stage-works to)
          λ added h. Yields-bind _ _ λ _. Yields-bind _ _ λ _. Yields-pure added h

module _ {W : Type 0} {env : Env W} {I : Run W → Type 0} {X : Left → Run W → Type 0}
    (st : Stable env I X) (workspaces : Keeps I X (workspace_stage env)) (revises : Revises st)
    (gives_up : (s : Run W) → I s → X spent s) where
  Keeps-run_steps :
      (fuel : ℕ) (steps : List Status) → works steps ≡ true → Keeps I X (run_steps env fuel steps)
  unfolding run_steps
  Keeps-run_steps fuel [] h = Keeps-pure tt
  Keeps-run_steps zero (to ∷ steps) h = record { at = gives_up }
  Keeps-run_steps (suc fuel) (to ∷ steps) h =
      Hoare-bind (λ added s. I s × (works added ≡ true)) _ _
        (Hoare-mono (λ s i. (i, tt)) (λ r s i. i)
          (Hoare-and (Keeps-run_step st workspaces revises to (ground arith))
            (run_step-works env to)))
        λ added. record {
          at = λ s i.
              (Keeps-run_steps fuel (steps ++ added)
                  (works-append steps added (ground arith) i.1)).at
                s i.0;
        }

  pub Hoare-body :
      {Q : Unit {0} → Run W → Type 0} → Hoare I (complete env) Q X → Hoare I (body env) Q X
  unfolding body
  Hoare-body completes =
      Hoare-bind (λ _. I) _ _ (st.counts queue_wait)
        λ _.
          Hoare-bind (λ _. I) _ _ (st.emits job_ctx job_started refl)
            λ _.
              Hoare-bind (λ _. I) _ _ (Keeps-run_steps step_fuel initial_steps refl) λ _. completes

-- What holds behind the deferred functions.
module _ {W : Type 0} (env : Env W) (F : Run W → Type 0)
    (anywhere : (s : Run W) (w : W) → F s → F (record s { world = w }))
    (cleans : (ws : Workspace) (s : Run W) → F s → F (record s { trace = cleaned ws ∷ s.trace }))
    (releases : (id : Bytes) (s : Run W)
      → F s
      → F (record s { trace = released id ∷ s.trace })) where
  frame : IsFrame F (λ _. F)
  frame = record { anywhere = anywhere; breaks = λ s h. h }

  cleanup_one :
      (manager : WorkspaceManager W) (ws : Workspace)
      → Always F (do note (cleaned ws); ask (manager.cleanup job_ctx ws); pure tt)
  cleanup_one manager ws = search (keeps_rules, Keeps-note, cleans, frame) depth 9

  cleanup_each-Always :
      (manager : WorkspaceManager W) (cs : List Candidate) → Always F (cleanup_each env manager cs)
  unfolding cleanup_each
  cleanup_each-Always manager [] = Keeps-pure tt
  cleanup_each-Always manager (c ∷ cs) =
      Keeps-bind _ _ (Keeps-when_some c.ws _ (cleanup_one manager))
        λ _. cleanup_each-Always manager cs

  pub cleanup-Always : Always F (cleanup env)
  unfolding cleanup
  cleanup-Always = search (keeps_rules, cleanup_each-Always) depth 9

  pub guarded-Always : (s : Run W) → F (body env s).1 → F (guarded env s).1
  unfolding guarded
  guarded-Always s h =
      let (e, s1) = body env s in
      let (e', s2) = cleanup env s1 in
      Always-at F _ s2 (Keeps-when _ _ (Keeps-note (released s2.job_id) (releases s2.job_id)))
        (Always-at F (cleanup env) s1 cleanup-Always h)
