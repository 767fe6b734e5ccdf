-- ===== src/Orchestration/Endings/Path.antt =====
-- About the statuses that Process (internal/orchestration/processor.go) walks the job through.
use rojo.Base.{Bytes, Option, none}
use rojo.Errors.{Error}
use rojo.Jobs.Status.{Status, Job, completed, failed}
use rojo.Jobs.Lifecycle.{Edge, Reach, here, then}
use rojo.Jobs.Transitions.{transition-ok}
use rojo.Orchestration.Env.{Env, Payload, job_ctx, step_started, step_completed, job_completed}
use rojo.Orchestration.Run.{Run, Exit, next, stop, panicking, exhausted, finish}
use rojo.Orchestration.Run.Keeps.{Hoare-bind, Keeps, Keeps-gets, Always, Always-at, IsFrame}
use rojo.Orchestration.Actions.{emit, move, mark_failed}
use rojo.Orchestration.Process.{body, complete, guarded, recovered, process_loaded, start}
use rojo.Orchestration.Stable.{Stable, Keeps-checkpoint, Keeps-fail_if}
use rojo.Orchestration.Stable.Loop.{Keeps-workspace_stage}
use rojo.Orchestration.Stable.Final.{Hoare-body, guarded-Always}
use rojo.Orchestration.Stable.Methods.{Keeps-count, Keeps-emit, Hoare-move}
use rojo.Orchestration.Stable.Statuses.{Holds, Hoare-advance, Hoare-mark_failed, status_stable}

-- A property of the status that every edge keeps.
module _ {W : Type 0} (env : Env W) (G : Status → Type 0)
    (closed : (a b : Status) → Edge a b → G a → G b) where
  same : IsFrame {W = W} (Holds G) (λ _. Holds G)
  same = record { anywhere = λ s w h. h; breaks = λ s h. h }

  stable : Stable env (Holds G) (λ _. Holds G)
  stable = status_stable env G (λ a b e n. closed a b e)

  moves : (to : Status) → Keeps (Holds G) (λ _. Holds G) (move env to)
  moves to =
      Hoare-move env (λ _. Holds G) (λ _. Holds G) (λ s w h. h) to
        (λ j now s e h.
          let (edge, at) = transition-ok now s.job to e in rw at (closed s.job.status to edge h))
        (λ x now s e h. h)

  says : (p : Payload) → Always (Holds G) (emit env job_ctx p)
  says p = Keeps-emit env same job_ctx p (λ id s h. h)

  fails : (e : Error) → Always (Holds G) (mark_failed env e)
  fails e = Hoare-mark_failed env G same _ e (moves failed)

  finishes : (e : Option Error) → Always (Holds G) (finish {W = W} {A = Unit {0}} e)
  unfolding finish
  finishes e = record { at = λ s h. h }

  completes : Always (Holds G) (complete env)
  unfolding complete
  completes =
      Hoare-bind (λ _. Holds G) _ _ (Keeps-checkpoint stable env.ctx_error)
        λ _.
          Hoare-bind (λ _. Holds G) _ _ (Keeps-gets (λ s. s.gate_error))
            λ g.
              Hoare-bind (λ _. Holds G) _ _ (Keeps-fail_if stable g)
                λ _.
                  Hoare-bind (λ _. Holds G) _ _ (says (step_started completed))
                    λ _.
                      Hoare-bind (λ _. Holds G) _ _
                        (Hoare-advance env G same _ completed (moves completed))
                        λ p.
                          Hoare-bind (λ _. Holds G) _ _ (Keeps-fail_if stable p)
                            λ _.
                              Hoare-bind (λ _. Holds G) _ _ (says (step_completed completed))
                                λ _.
                                  Hoare-bind (λ _. Holds G) _ _ (says job_completed)
                                    λ _. finishes none

  runs : Always (Holds G) (body env)
  runs =
      Hoare-body stable (Keeps-workspace_stage stable (λ ws s h. h) (λ cs s h. h)) (λ notes s h. h)
        (λ s h. h) completes

  recovers : (e : Exit (Unit {0})) → Always (Holds G) (recovered env e)
  unfolding recovered
  recovers (panicking v) = Hoare-bind (λ _. Holds G) _ _ (fails _) finishes
  recovers (next a) = record { at = λ s h. h }
  recovers (stop e) = record { at = λ s h. h }
  recovers exhausted = record { at = λ s h. h }

  pub process_loaded-Holds : (s : Run W) → Holds G s → Holds G (process_loaded env s).1
  unfolding process_loaded
  process_loaded-Holds s h = Always-at (Holds G) _ _ (Keeps-count env same _ (λ t k. k)) (
      Always-at (Holds G) (recovered env (guarded env s).0) (guarded env s).1 (recovers _) (
        guarded-Always env (Holds G) (λ t w k. k) (λ ws t k. k) (λ id t k. k) s
          (Always-at (Holds G) (body env) s runs h)))

module _ {W : Type 0} (env : Env W) where
  -- Process moves the job along the edges of its life only: the status that it leaves the job in is
  -- reached, edge by edge, from the status that the job was loaded with, deferred functions and the
  -- recovery from a panic included.
  pub process-Reach :
      (id : Bytes) (job : Job) (w : W)
      → Reach job.status (process_loaded env (start env id job w)).1.job.status
  process-Reach id job w =
      process_loaded-Holds env (Reach job.status) (λ a b e r. then r e) (start env id job w) here
