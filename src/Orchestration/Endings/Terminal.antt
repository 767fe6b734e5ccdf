-- ===== src/Orchestration/Endings/Terminal.antt =====
-- About the returns of Process (internal/orchestration/processor.go): the status of the job there.
use rojo.Base.{Bytes, Option, none, some, ◌≡◌, refl}
use rojo.Errors.{Error}
use rojo.Jobs.Status.{Status, completed}
use rojo.Jobs.Transitions.{transition-ok}
use rojo.Orchestration.Env.{Payload, Ctx, Env, job_ctx, step_started, step_completed, job_completed}
use rojo.Orchestration.Run.{Run, M, pure, ◌>>=◌, finish, on_option}
use rojo.Orchestration.Run.Keeps.{
  Left, stopped, broke, spent, Hoare, Keeps, IsFrame, Hoare-bind, Hoare-mono, Hoare-pure,
  Keeps-bind, Keeps-gets, keeps_rules,
}
use rojo.Orchestration.Actions.{emit, update, advance, fail_if, fail_with, wrapped}
use rojo.Orchestration.Process.{complete, body}
use rojo.Orchestration.Stable.{Stable, Keeps-checkpoint, Keeps-fail_if}
use rojo.Orchestration.Stable.Methods.{Keeps-emit, Keeps-count, Keeps-update, Hoare-move}
use rojo.Orchestration.Stable.Statuses.{Holds, IsOver, mark_failed-IsOver, mark_cancelled-IsOver}
use rojo.Orchestration.Stable.Loop.{Keeps-workspace_stage}
use rojo.Orchestration.Stable.Final.{Hoare-body}

module _ {W : Type 0} where
  abbrev Anything : Run W → Type 0
  Anything s = Unit {0}

  -- Terminal where Process returns, and nothing is said of a panic.
  abbrev pub Stopping : Left → Run W → Type 0
  Stopping stopped s = IsOver s.job.status
  Stopping broke s = Unit {0}
  Stopping spent s = Unit {0}

  calm : IsFrame Anything Stopping
  calm = record { anywhere = λ s w h. tt; breaks = λ s h. tt }

  over : IsFrame (Holds IsOver) Stopping
  over = record { anywhere = λ s w h. h; breaks = λ s h. tt }

module _ {W : Type 0} (env : Env W) where
  advances : (to : Status) → Keeps Anything Stopping (advance env to)
  unfolding advance
  advances to =
      Keeps-bind _ _
        (Hoare-move env Stopping (λ _. Anything) (λ s w h. tt) to (λ j now s e h. tt)
          (λ x now s e h. tt))
        λ r. search (keeps_rules, update_calm) depth 9
    where
      update_calm : (ctx : Ctx) → Keeps Anything Stopping (update env ctx)
      update_calm ctx = Keeps-update env calm ctx (λ j took s h. tt)

  stopping : Stable env Anything Stopping
  stopping = record {
    quiet = record { frame = calm; emits = λ ctx p _. Keeps-emit env calm ctx p (λ id s h. tt) };
    counts = λ m. Keeps-count env calm m (λ s h. tt);
    advances = λ to _. advances to;
    fails = λ e. mark_failed-IsOver env over e;
    cancels = mark_cancelled-IsOver env over;
    plans = λ p s h. tt;
    selects = λ files tree s h. tt;
    decides = λ best problem s v h. tt;
    attempts = λ cs s e h. tt;
  }

  emits-IsOver : (ctx : Ctx) (p : Payload) → Keeps (Holds IsOver) Stopping (emit env ctx p)
  emits-IsOver ctx p = Keeps-emit env over ctx p (λ id s h. h)

  updates-IsOver : (ctx : Ctx) → Keeps (Holds IsOver) Stopping (update env ctx)
  updates-IsOver ctx = Keeps-update env over ctx (λ j took s h. h)

  -- Where the last change of status is taken the job is completed.
  abbrev Taken : Option Error → Run W → Type 0
  Taken problem s = problem ≡ none → IsOver s.job.status

  persists-IsOver :
      (before : Bytes)
      → Hoare
          (Holds IsOver)
          (do problem ← update env job_ctx; pure (wrapped env before problem))
          Taken
          Stopping
  persists-IsOver before =
      Hoare-bind (λ _. Holds IsOver) _ _ (updates-IsOver job_ctx) λ p. Hoare-pure _ (λ s h e. h)

  or_refused :
      (m : M W (Option Error)) (g : Error → Error) (r : Option Error)
      → Hoare (Holds IsOver) m Taken Stopping
      → Hoare (Taken r) (on_option r m (λ e. pure (some (g e)))) Taken Stopping
  unfolding on_option pure
  or_refused m g none k = record { at = λ s h. k.at s (h refl) }
  or_refused m g (some e) k = record { at = λ s h q. cc }

  advance-completed : Hoare Anything (advance env completed) Taken Stopping
  unfolding advance
  advance-completed =
      Hoare-bind Taken _ _
        (Hoare-move env Stopping Taken (λ s w h. tt) completed
          (λ j now s e h _. rw ((transition-ok now s.job completed e).1) refl)
          (λ x now s e h q. cc))
        (λ r. or_refused _ _ r (persists-IsOver _))

  fails-IsOver :
      (e : Error)
      → Hoare (Taken (some e)) (fail_with env {A = Unit {0}} e) (λ _. Holds IsOver) Stopping
  unfolding fail_with finish
  fails-IsOver e =
      Hoare-bind (λ _. Holds IsOver) _ _
        (Hoare-mono (λ s h. tt) (λ r s h. h) (mark_failed-IsOver env over e))
        λ r. record { at = λ s h. h }

  fails_if :
      (problem : Option Error)
      → Hoare (Taken problem) (fail_if env problem) (λ _. Holds IsOver) Stopping
  unfolding fail_if on_option pure
  fails_if none = record { at = λ s h. h refl }
  fails_if (some e) = fails-IsOver e

  finishes : Hoare {W = W} (Holds IsOver) (finish none) (λ (_ : Unit {0}) _. ⊥) Stopping
  unfolding finish
  finishes = record { at = λ s h. h }

  -- The last part of Process never falls off its end.
  completes : Hoare Anything (complete env) (λ _ _. ⊥) Stopping
  unfolding complete
  completes =
      Hoare-bind (λ _. Anything) _ _ (Keeps-checkpoint stopping env.ctx_error)
        λ _.
          Hoare-bind (λ _. Anything) _ _ (Keeps-gets (λ s. s.gate_error))
            λ g.
              Hoare-bind (λ _. Anything) _ _ (Keeps-fail_if stopping g)
                λ _.
                  Hoare-bind (λ _. Anything) _ _
                    (stopping.emits job_ctx (step_started completed) refl)
                    λ _. Hoare-bind Taken _ _ advance-completed λ problem.
                      Hoare-bind (λ _. Holds IsOver) _ _ (fails_if problem)
                        λ _.
                          Hoare-bind (λ _. Holds IsOver) _ _
                            (emits-IsOver job_ctx (step_completed completed))
                            λ _.
                              Hoare-bind (λ _. Holds IsOver) _ _
                                (emits-IsOver job_ctx job_completed) λ _. finishes

  pub body-Stopping : Hoare Anything (body env) (λ _ _. ⊥) Stopping
  body-Stopping =
      Hoare-body stopping (Keeps-workspace_stage stopping (λ ws s h. tt) (λ cs s h. tt))
        (λ notes s h. tt) (λ s h. tt) completes
