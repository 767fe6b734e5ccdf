-- ===== src/Orchestration/Endings/Passed/Last.antt =====
-- About the end of Process (internal/orchestration/processor.go), behind its last look at the gate.
use rojo.Base.{Bytes, true, false, Option, none, some, ◌≡◌, ◌≢◌, refl, inl, inr, is_some, sym, ◌∙◌}
use rojo.Errors.{Error}
use rojo.Jobs.Status.{Job, completed, failed}
use rojo.Jobs.Transitions.{transition-ok}
use rojo.Orchestration.Env.{
  Env, Payload, Ctx, job_ctx, job_started, step_started, step_completed, job_completed,
}
use rojo.Orchestration.Run.{
  Run, Exit, exhausted, queue_wait, on_option, pure, finish, panicking, next, stop,
}
use rojo.Orchestration.Run.Keeps.{
  Hoare, Keeps, IsFrame, Post-same, Hoare-bind, Hoare-mono, Hoare-gets, Keeps-bind, Always,
  Always-at, keeps_rules,
}
use rojo.Orchestration.Actions.{fail_with, emit, move, update, mark_failed, fail_if}
use rojo.Orchestration.Process.{
  complete, body, guarded, recovered, process_loaded, start, initial_steps, step_fuel,
}
use rojo.Orchestration.Stable.{Hoare-fail_with, Keeps-checkpoint}
use rojo.Orchestration.Stable.Inert.{IsInert, Keeps-advance, Keeps-mark_failed}
use rojo.Orchestration.Stable.Methods.{Keeps-emit, Keeps-count, Keeps-update, Hoare-move}
use rojo.Orchestration.Stable.Final.{guarded-Always}
use rojo.Orchestration.Endings.Passed.{other_status, Sound, Live, Kept, Leaving, says, stable}
use rojo.Orchestration.Endings.Passed.Rounds.{run_steps-Vouched}

module _ {W : Type 0} (env : Env W) (verified : is_some env.verifier ≡ true) where
  -- Behind the last look at the gate nothing depends on the status any more.
  inert : IsInert {W = W} Sound
  inert = record { world = λ s w h. h; job = λ j s h. h; trace = λ e s h. h }

  fair : IsFrame {W = W} Sound Leaving
  fair = record { anywhere = λ s w h. h; breaks = λ s h e. h }

  ends : (e : Error) → Keeps Sound Leaving (fail_with env {A = Unit {0}} e)
  unfolding fail_with finish
  ends e =
      Hoare-bind (λ _. Sound) _ _ (Keeps-mark_failed env inert fair e)
        λ r. record { at = λ s h q. h }

  ends_if : (problem : Option Error) → Keeps Sound Leaving (fail_if env problem)
  unfolding fail_if
  ends_if problem = search (keeps_rules, ends)

  tells : (p : Payload) → Keeps Sound Leaving (emit env job_ctx p)
  tells p = Keeps-emit env fair job_ctx p (λ id s h. h)

  gate_shut :
      (g : Option Error)
      → Hoare (λ s. Live false s × (g ≡ s.gate_error)) (fail_if env g) (λ _. Sound) Leaving
  unfolding fail_if on_option pure
  gate_shut none = record { at = λ s h. elim (h.0.1) [ inl k ↦ cc | inr k ↦ k (sym h.1) ] }
  gate_shut (some e) =
      Hoare-mono (λ s h. h.0) (λ a s h. h)
        (Hoare-fail_with ((stable env verified) false) {Q = λ _. Sound} e)

  returns-Sound : Hoare Sound (finish {W = W} {A = Unit {0}} none) (λ _. Kept) Leaving
  unfolding finish
  returns-Sound = record { at = λ s h e. h }

  completes : Hoare (Live false) (complete env) (λ _. Kept) Leaving
  unfolding complete
  completes =
      Hoare-bind (λ _. Live false) _ _
        (Keeps-checkpoint ((stable env verified) false) env.ctx_error)
        λ _.
          Hoare-bind (λ g s. Live false s × (g ≡ s.gate_error)) _ _ (Hoare-gets (λ s. s.gate_error))
            λ g.
              Hoare-bind (λ _. Sound) _ _ (gate_shut g)
                λ _.
                  Hoare-bind (λ _. Sound) _ _ (tells (step_started completed))
                    λ _.
                      Hoare-bind (λ _. Sound) _ _ (Keeps-advance env inert fair completed)
                        λ p.
                          Hoare-bind (λ _. Sound) _ _ (ends_if p)
                            λ _.
                              Hoare-bind (λ _. Sound) _ _ (tells (step_completed completed))
                                λ _.
                                  Hoare-bind (λ _. Sound) _ _ (tells job_completed)
                                    λ _. returns-Sound

  body-Kept : Hoare (Live true) (body env) (λ _. Kept) Leaving
  unfolding body
  body-Kept =
      Hoare-bind (λ _. Live true) _ _ (((stable env verified) true).counts queue_wait)
        λ _.
          Hoare-bind (λ _. Live true) _ _ ((says env verified) true job_ctx job_started)
            λ _.
              Hoare-bind (λ _. Live false) _ _
                ((run_steps-Vouched env verified) step_fuel initial_steps refl refl) λ _. completes

  -- The deferred functions.
  kept : IsFrame {W = W} Kept Leaving
  kept = record { anywhere = λ s w h. h; breaks = λ s h. h }

  Keeps-moved : Keeps Kept Leaving (move env failed)
  Keeps-moved =
      Hoare-move env Leaving (λ _. Kept) (λ s w h. h) failed
        (λ j now s e h q.
          let at : failed ≡ completed = sym ((transition-ok now s.job failed e).1) ∙ q in
          absurd (cc at))
        (λ x now s e h. h)

  mark_failed-Kept : (e : Error) → Keeps Kept Leaving (mark_failed env e)
  unfolding mark_failed
  mark_failed-Kept e =
      Keeps-bind _ _ Keeps-moved λ r. search (keeps_rules, updates, tells_kept) depth 9
    where
      updates : (ctx : Ctx) → Keeps Kept Leaving (update env ctx)
      updates ctx = Keeps-update env kept ctx (λ j took s h. h)

      tells_kept : (ctx : Ctx) (p : Payload) → Keeps Kept Leaving (emit env ctx p)
      tells_kept ctx p = Keeps-emit env kept ctx p (λ id s h. h)

  finishes : (e : Option Error) → Always Kept (finish {W = W} {A = Unit {0}} e)
  unfolding finish
  finishes e = record { at = λ s h. h }

  recovered-Kept : (e : Exit (Unit {0})) → Always Kept (recovered env e)
  unfolding recovered
  recovered-Kept (panicking v) = Hoare-bind (λ _. Kept) _ _ (mark_failed-Kept _) finishes
  recovered-Kept (next a) = record { at = λ s h. h }
  recovered-Kept (stop e) = record { at = λ s h. h }
  recovered-Kept exhausted = record { at = λ s h. h }

  pub process_loaded-Kept : (s : Run W) → Live true s → Kept (process_loaded env s).1
  unfolding process_loaded
  process_loaded-Kept s h = Always-at Kept _ _ (Keeps-count env kept _ (λ t k. k)) (
      Always-at Kept (recovered env (guarded env s).0) (guarded env s).1 (recovered-Kept _) (
        guarded-Always env Kept (λ t w k. k) (λ ws t k. k) (λ id t k. k) s
          (Post-same Kept (body env s) (body-Kept.at s h))))

module _ {W : Type 0} (env : Env W) where
  -- With a verifier, a job that was not loaded as completed ends completed (only env verified) if the attempt that
  -- the run names as its winner passed: it has a checkout, neither writing nor checking it failed,
  -- and every check in its report passed. The one exception is a run without any attempt, whose
  -- workspaces were never made. No answer of a collaborator, no revision and no panic changes this.
  pub process-completed_passed :
      (id : Bytes) (job : Job) (w : W)
      → is_some env.verifier ≡ true
      → job.status ≢ completed
      → (process_loaded env (start env id job w)).1.job.status ≡ completed
      → Sound (process_loaded env (start env id job w)).1
  process-completed_passed id job w v n =
      process_loaded-Kept env v (start env id job w) (other_status job.status n, inl refl)
