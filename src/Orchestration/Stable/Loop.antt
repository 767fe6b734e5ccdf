-- ===== src/Orchestration/Stable/Loop.antt =====
-- What the reviewing step and the loop over the steps keep.
use rojo.Base.{ℕ, zero, suc, Bytes, Bool, false, List, [], ◌∷◌, Option, none, ◌≡◌, refl}
use rojo.Errors.{Error, Result}
use rojo.Jobs.Status.{
  Status, completed, planning, preparing_workspace, implementing, verifying, reviewing, status_eq,
  queued, waiting_for_revision, failed, cancelled,
}
use rojo.Agents.Types.{ReviewRequest, Review}
use rojo.Orchestration.Candidate.{Workspace, Candidate}
use rojo.Orchestration.Env.{Env, Call, WorkspaceManager}
use rojo.Orchestration.Run.{Run, created}
use rojo.Orchestration.Run.Keeps.{
  Left, Keeps, Keeps-bind, Keeps-pure, Keeps-modify, Keeps-note, keeps_rules, Keeps-on_result,
  Keeps-ask, Keeps-when_some,
}
use rojo.Orchestration.Stages.{create_from, announce, workspace_stage}
use rojo.Orchestration.Reviewing.{
  Verdict, approved, revise, refused, nil_pointer, review_failed_gate, diff_of, ask_reviewer,
  review_passed_gate, review, act_on, reviewing_stage,
}
use rojo.Orchestration.Process.{stage, run_step}
use rojo.Orchestration.Stable.{
  Quiet, Stable, Keeps-fail_with, Keeps-fail_if, Keeps-checkpoint, Keeps-planning_stage,
}
use rojo.Orchestration.Stable.Stages.{Keeps-implementing_stage, Keeps-verifying_stage}

module _ {W : Type 0} {env : Env W} {I : Run W → Type 0} {X : Left → Run W → Type 0}
    (q : Quiet env I X) where
  Keeps-diff_of : (c : Candidate) → Keeps I X (diff_of env c)
  unfolding diff_of
  Keeps-diff_of c = search (keeps_rules, q.frame) depth 9

  Keeps-ask_reviewer :
      (reviewer : ReviewRequest → W → Call (Result Review) × W) (c : Candidate) (again : Bool)
      (diff : Bytes)
      → Keeps I X (ask_reviewer env reviewer c again diff)
  unfolding ask_reviewer
  Keeps-ask_reviewer reviewer c again diff = search (keeps_rules, q.frame, q.emits) depth 12

  Keeps-nil_pointer : Keeps I X nil_pointer
  unfolding nil_pointer
  Keeps-nil_pointer = search (keeps_rules, q.frame)

  Keeps-review_passed_gate :
      (best : Option Candidate) (again : Bool) → Keeps I X (review_passed_gate env best again)
  unfolding review_passed_gate
  Keeps-review_passed_gate best again =
      search (keeps_rules, q.emits, Keeps-nil_pointer, Keeps-diff_of, Keeps-ask_reviewer) depth 12

  Keeps-review_failed_gate :
      (best : Option Candidate) (e : Error) (again : Bool)
      → Keeps I X (review_failed_gate env best e again)
  unfolding review_failed_gate
  Keeps-review_failed_gate best e again = search (keeps_rules, Keeps-nil_pointer) depth 9

  pub Keeps-review :
      (best : Option Candidate) (g : Option Error) (again : Bool)
      → Keeps I X (review env best g again)
  unfolding review
  Keeps-review best g again =
      search (keeps_rules, Keeps-review_passed_gate, Keeps-review_failed_gate) depth 9

  pub Keeps-announce : (cs : List Candidate) → Keeps I X (announce env cs)
  unfolding announce
  Keeps-announce [] = Keeps-pure tt
  Keeps-announce (c ∷ cs) =
      Keeps-bind _ _ (Keeps-when_some c.ws _ (λ ws. q.emits _ _ refl)) λ _. Keeps-announce cs

module _ {W : Type 0} {env : Env W} {I : Run W → Type 0} {X : Left → Run W → Type 0}
    (st : Stable env I X) where
  abbrev pub Revises : Type 0
  Revises =
      (notes : Bytes) (s : Run W)
      → I s
      → I (record s { revisions = suc s.revisions; feedback = notes; gate_error = none })

  Keeps-act_on : Revises → (v : Verdict) → Keeps I X (act_on env v)
  unfolding act_on
  Keeps-act_on r approved = Keeps-pure []
  Keeps-act_on r (refused e) = Keeps-fail_with st e
  Keeps-act_on r (revise notes) = search (keeps_rules, st.counts, st.emits, Keeps-modify, r) depth 9

  pub Keeps-reviewing_stage : Revises → Keeps I X (reviewing_stage env)
  unfolding reviewing_stage
  Keeps-reviewing_stage r = search (keeps_rules, Keeps-review st.quiet, Keeps-act_on, r) depth 9

  abbrev pub Creates : Type 0
  Creates = (ws : Workspace) (s : Run W) → I s → I (record s { trace = created ws ∷ s.trace })

  Keeps-create_from :
      Creates
      → (manager : WorkspaceManager W) (id repo : Bytes) (total left i : ℕ) (made : List Candidate)
      → Keeps I X (create_from env manager id repo total left i made)
  unfolding create_from
  Keeps-create_from k manager id repo total zero i made = Keeps-pure (made, none)
  Keeps-create_from k manager id repo total (suc left) i made =
      Keeps-bind _ _ (Keeps-ask _ st.frame) λ tried.
        Keeps-on_result tried _ _ (λ e. Keeps-pure _)
          λ ws.
            Keeps-bind _ _ (Keeps-note _ (k ws))
              λ _. Keeps-create_from k manager id repo total left _ _

  pub Keeps-workspace_stage :
      Creates
      → ((cs : List Candidate) (s : Run W) → I s → I (record s { cands = cs }))
      → Keeps I X (workspace_stage env)
  unfolding workspace_stage
  Keeps-workspace_stage k set_cands =
      search
        (
          keeps_rules,
          Keeps-create_from,
          k,
          Keeps-modify,
          set_cands,
          Keeps-fail_if st,
          Keeps-announce st.quiet,
        )
        depth 12

  module _ (workspaces : Keeps I X (workspace_stage env)) (revises : Revises) where
    Keeps-stage : (to : Status) → Keeps I X (stage env to)
    unfolding stage
    Keeps-stage planning = Keeps-bind _ _ (Keeps-planning_stage st) λ _. Keeps-pure []
    Keeps-stage preparing_workspace = Keeps-bind _ _ workspaces λ _. Keeps-pure []
    Keeps-stage implementing = Keeps-bind _ _ (Keeps-implementing_stage st) λ _. Keeps-pure []
    Keeps-stage verifying = Keeps-bind _ _ (Keeps-verifying_stage st) λ _. Keeps-pure []
    Keeps-stage reviewing = Keeps-reviewing_stage revises
    Keeps-stage queued = Keeps-pure []
    Keeps-stage waiting_for_revision = Keeps-pure []
    Keeps-stage completed = Keeps-pure []
    Keeps-stage failed = Keeps-pure []
    Keeps-stage cancelled = Keeps-pure []

    pub Keeps-run_step :
        (to : Status) → status_eq to completed ≡ false → Keeps I X (run_step env to)
    unfolding run_step
    Keeps-run_step to h =
        search
          (keeps_rules, st.emits, st.advances, Keeps-checkpoint st, Keeps-fail_if st, Keeps-stage)
          depth 12
