-- ===== src/Orchestration/Stable/Inert.antt =====
-- What looks neither at the job, nor at the trace, nor at the world, the small methods keep.
use rojo.Base.{Bytes, List, ◌∷◌, Option, ◌≡◌, map}
use rojo.Errors.{Error}
use rojo.Jobs.Status.{Status, Job}
use rojo.Agents.Types.{Plan}
use rojo.Orchestration.Candidate.{Candidate}
use rojo.Orchestration.Env.{Payload, Ctx, Env}
use rojo.Orchestration.Run.{Run, Effect}
use rojo.Orchestration.Run.Keeps.{Left, stopped, Keeps, IsFrame, Hoare-mono, keeps_rules}
use rojo.Orchestration.Actions.{emit, move, update, advance, mark_failed, mark_cancelled}
use rojo.Orchestration.Stable.{Quiet, Stable, Vouches}
use rojo.Orchestration.Stable.Methods.{Keeps-emit, Keeps-count, Keeps-update, Hoare-move}

-- `F` speaks of the candidates, the gate, the winner and the revisions at most.
pub record IsInert {W : Type 0} (F : Run W → Type 0) : Type 0 where
  pub world : (s : Run W) (w : W) → F s → F (record s { world = w })
  pub job : (j : Job) (s : Run W) → F s → F (record s { job = j })
  pub trace : (e : Effect) (s : Run W) → F s → F (record s { trace = e ∷ s.trace })

module _ {W : Type 0} (env : Env W) {F : Run W → Type 0} (inert : IsInert F)
    {X : Left → Run W → Type 0} (fr : IsFrame F X) where
  emits : (ctx : Ctx) (p : Payload) → Keeps F X (emit env ctx p)
  emits ctx p = Keeps-emit env fr ctx p (λ id s h. inert.trace _ s h)

  updates : (ctx : Ctx) → Keeps F X (update env ctx)
  updates ctx = Keeps-update env fr ctx (λ j took s h. inert.trace _ s h)

  moves : (to : Status) → Keeps F X (move env to)
  moves to =
      Hoare-move env X (λ _. F) inert.world to (λ j now s e h. inert.job j s h) (λ x now s e h. h)

  pub Keeps-advance : (to : Status) → Keeps F X (advance env to)
  unfolding advance
  Keeps-advance to = search (keeps_rules, moves, updates) depth 9

  pub Keeps-mark_failed : (e : Error) → Keeps F X (mark_failed env e)
  unfolding mark_failed
  Keeps-mark_failed e = search (keeps_rules, moves, emits, updates) depth 9

  pub Keeps-mark_cancelled : Keeps F X (mark_cancelled env)
  unfolding mark_cancelled
  Keeps-mark_cancelled = search (keeps_rules, moves, emits, updates) depth 9

  pub inert_quiet : Quiet env F X
  inert_quiet = record { frame = fr; emits = λ ctx p _. emits ctx p }

  module _ (leaves : (s : Run W) → F s → X stopped s)
      (plans : (p : Plan) (s : Run W) → F s → F (record s { plan = p }))
      (selects : (files tree : List Bytes) (s : Run W)
        → F s
        → F (record s { context_files = files; repo_tree = tree }))
      (decides : (best : Option Candidate) (problem : Option Error) (s : Run W)
        → Vouches env (best, problem)
        → F s
        → F (record s { winner = best; gate_error = problem }))
      (attempts : (cs : List Candidate) (s : Run W)
        → map (λ c. c.ws) cs ≡ map (λ c. c.ws) s.cands
        → F s
        → F (record s { cands = cs })) where
    pub inert_stable : Stable env F X
    inert_stable = record {
      quiet = inert_quiet;
      counts = λ m. Keeps-count env fr m (λ s h. inert.trace _ s h);
      advances = λ to _. Keeps-advance to;
      fails = λ e. Hoare-mono (λ s h. h) (λ r s h. leaves s h) (Keeps-mark_failed e);
      cancels = Hoare-mono (λ s h. h) (λ r s h. leaves s h) Keeps-mark_cancelled;
      plans = plans;
      selects = selects;
      decides = decides;
      attempts = attempts;
    }
