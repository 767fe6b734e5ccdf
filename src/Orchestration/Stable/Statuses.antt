-- ===== src/Orchestration/Stable/Statuses.antt =====
-- What is said of the status alone: it is kept where the edges of the life of a job keep it.
use rojo.Base.{true, false, ◌≡◌, refl}
use rojo.Errors.{Error}
use rojo.Jobs.Status.{Status, failed, cancelled, completed, status_eq}
use rojo.Jobs.Lifecycle.{Edge, is_terminal}
use rojo.Jobs.Transitions.{transition-ok, transition-failed-err, transition-cancelled-err}
use rojo.Orchestration.Env.{Payload, Ctx, Env}
use rojo.Orchestration.Run.{Run}
use rojo.Orchestration.Run.Keeps.{Left, Hoare, Keeps, IsFrame, Hoare-bind, keeps_rules}
use rojo.Orchestration.Actions.{emit, move, update, advance, mark_failed, mark_cancelled}
use rojo.Orchestration.Stable.{Stable}
use rojo.Orchestration.Stable.Methods.{Keeps-emit, Keeps-count, Keeps-update, Hoare-move}

module _ {W : Type 0} where
  abbrev pub Holds : (Status → Type 0) → Run W → Type 0
  Holds G s = G s.job.status

module _ {W : Type 0} (env : Env W) (G : Status → Type 0) {X : Left → Run W → Type 0} where
  module _ (fr : IsFrame (Holds G) X) where
    persist_failed : (ctx : Ctx) → Keeps (Holds G) X (update env ctx)
    persist_failed ctx = Keeps-update env fr ctx (λ j took s h. h)

    silent : (ctx : Ctx) (p : Payload) → Keeps (Holds G) X (emit env ctx p)
    silent ctx p = Keeps-emit env fr ctx p (λ id s h. h)

    -- Behind the change of status, markFailed and markCancelled leave the status alone.
    pub Hoare-mark_failed :
        (P : Run W → Type 0) (e : Error)
        → Hoare P (move env failed) (λ _. Holds G) X
        → Hoare P (mark_failed env e) (λ _. Holds G) X
    unfolding mark_failed
    Hoare-mark_failed P e m =
        Hoare-bind (λ _. Holds G) _ _ m
          λ refused. search (keeps_rules, silent, persist_failed) depth 9

    pub Hoare-mark_cancelled :
        (P : Run W → Type 0)
        → Hoare P (move env cancelled) (λ _. Holds G) X
        → Hoare P (mark_cancelled env) (λ _. Holds G) X
    unfolding mark_cancelled
    Hoare-mark_cancelled P m =
        Hoare-bind (λ _. Holds G) _ _ m
          λ refused. search (keeps_rules, silent, persist_failed) depth 9

    pub Hoare-advance :
        (P : Run W → Type 0) (to : Status)
        → Hoare P (move env to) (λ _. Holds G) X
        → Hoare P (advance env to) (λ _. Holds G) X
    unfolding advance
    Hoare-advance P to m =
        Hoare-bind (λ _. Holds G) _ _ m λ refused. search (keeps_rules, persist_failed) depth 9

-- A property of the status that every edge but the one to `completed` keeps.
module _ {W : Type 0} (env : Env W) (G : Status → Type 0)
    (closed : (a b : Status) → Edge a b → status_eq b completed ≡ false → G a → G b) where
  moves_on :
      (to : Status)
      → status_eq to completed ≡ false
      → Hoare (Holds G) (move env to) (λ _. Holds G) (λ _. Holds G)
  moves_on to n =
      Hoare-move env (λ _. Holds G) (λ _. Holds G) (λ s w h. h) to
        (λ j now s e h.
          let (edge, at) = transition-ok now s.job to e in rw at (closed s.job.status to edge n h))
        (λ x now s e h. h)

  same : IsFrame {W = W} (Holds G) (λ _. Holds G)
  same = record { anywhere = λ s w h. h; breaks = λ s h. h }

  pub status_stable : Stable env (Holds G) (λ _. Holds G)
  status_stable = record {
    quiet = record { frame = same; emits = λ ctx p _. Keeps-emit env same ctx p (λ id s h. h) };
    counts = λ m. Keeps-count env same m (λ s h. h);
    advances = λ to n. Hoare-advance env G same _ to (moves_on to n);
    fails = λ e. Hoare-mark_failed env G same _ e (moves_on failed refl);
    cancels = Hoare-mark_cancelled env G same _ (moves_on cancelled refl);
    plans = λ p s h. h;
    selects = λ files tree s h. h;
    decides = λ best problem s v h. h;
    attempts = λ cs s e h. h;
  }

abbrev pub IsOver : Status → Type 0
IsOver a = is_terminal a ≡ true

-- markFailed and markCancelled end the job, whether or not they may change its status.
module _ {W : Type 0} (env : Env W) {X : Left → Run W → Type 0}
    (fr : IsFrame (Holds IsOver) X) where
  ends_by_failing : Hoare (λ _. Unit {0}) (move env failed) (λ _. Holds IsOver) X
  ends_by_failing =
      Hoare-move env X (λ _. Holds IsOver) (λ s w h. tt) failed
        (λ j now s e h. rw ((transition-ok now s.job failed e).1) refl)
        (λ x now s e h. transition-failed-err now s.job e)

  ends_by_cancelling : Hoare (λ _. Unit {0}) (move env cancelled) (λ _. Holds IsOver) X
  ends_by_cancelling =
      Hoare-move env X (λ _. Holds IsOver) (λ s w h. tt) cancelled
        (λ j now s e h. rw ((transition-ok now s.job cancelled e).1) refl)
        (λ x now s e h. transition-cancelled-err now s.job e)

  pub mark_failed-IsOver :
      (e : Error) → Hoare (λ _. Unit {0}) (mark_failed env e) (λ _. Holds IsOver) X
  mark_failed-IsOver e = Hoare-mark_failed env IsOver fr _ e ends_by_failing

  pub mark_cancelled-IsOver : Hoare (λ _. Unit {0}) (mark_cancelled env) (λ _. Holds IsOver) X
  mark_cancelled-IsOver = Hoare-mark_cancelled env IsOver fr _ ends_by_cancelling
