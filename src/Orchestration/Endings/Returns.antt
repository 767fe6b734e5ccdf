-- ===== src/Orchestration/Endings/Returns.antt =====
-- About the end of Process (internal/orchestration/processor.go) behind its deferred functions.
use rojo.Base.{Bytes, Bool, true, false, ◌≡◌, refl}
use rojo.Errors.{Error}
use rojo.Jobs.Status.{Job}
use rojo.Jobs.Lifecycle.{is_terminal}
use rojo.Orchestration.Env.{Env}
use rojo.Orchestration.Run.{Run, Exit, next, stop, panicking, exhausted, finish, ◌>>=◌}
use rojo.Orchestration.Run.Keeps.{Left, spent, Post, Hoare, Hoare-bind, Always-at, IsFrame}
use rojo.Orchestration.Actions.{mark_failed}
use rojo.Orchestration.Process.{body, cleanup, guarded, after, recovered, process_loaded, start}
use rojo.Orchestration.Stable.Final.{guarded-Always}
use rojo.Orchestration.Stable.Statuses.{Holds, IsOver, mark_failed-IsOver}
use rojo.Orchestration.Stable.Methods.{Keeps-count}
use rojo.Orchestration.Endings.Terminal.{Stopping, body-Stopping}
use rojo.Orchestration.Endings.Fuel.{NeverSpent, body-NeverSpent}

abbrev pub is_stop : Exit (Unit {0}) → Bool
is_stop (stop e) = true
is_stop _ = false

-- Process returned, or its own recovery panicked.
abbrev pub leaves : Exit (Unit {0}) → Bool
leaves (stop e) = true
leaves (panicking v) = true
leaves _ = false

leaves-after :
    (e e' : Exit (Unit {0}))
    → leaves e ≡ true
    → (leaves (after e e') ≡ true) × (is_stop (after e e') ≡ true → is_stop e ≡ true)
leaves-after e (panicking v) h = (refl, λ k. cc)
leaves-after e (next a) h = (h, λ k. k)
leaves-after e (stop x) h = (h, λ k. k)
leaves-after e exhausted h = (h, λ k. k)

module _ {W : Type 0} where
  -- Over wherever a run leaves, and it always leaves.
  abbrev Over : Left → Run W → Type 0
  Over spent s = ⊥
  Over _ s = Holds IsOver s

  over : IsFrame (Holds IsOver) Over
  over = record { anywhere = λ s w h. h; breaks = λ s h. h }

  left_body :
      (r : Exit (Unit {0}) × Run W)
      → Post (λ _ _. ⊥) Stopping r
      → Post (λ _ _. Unit {0}) NeverSpent r
      → (leaves r.0 ≡ true) × (is_stop r.0 ≡ true → IsOver r.1.job.status)
  left_body (next a, s) h k = absurd h
  left_body (stop e, s) h k = (refl, λ _. h)
  left_body (panicking v, s) h k = (refl, λ q. cc)
  left_body (exhausted, s) h k = absurd k

  left-Over :
      (r : Exit (Unit {0}) × Run W)
      → Post (λ _ _. ⊥) Over r
      → (leaves r.0 ≡ true) × IsOver r.1.job.status
  left-Over (next a, s) h = absurd h
  left-Over (stop e, s) h = (refl, h)
  left-Over (panicking v, s) h = (refl, h)
  left-Over (exhausted, s) h = absurd h

module _ {W : Type 0} (env : Env W) where
  recovers :
      (e : Error)
      → Hoare (λ s. Unit {0}) (do r ← mark_failed env e; finish {A = Unit {0}} r) (λ _ _. ⊥) Over
  recovers e =
      Hoare-bind (λ _. Holds IsOver) _ _ (mark_failed-IsOver env over e)
        λ r. record { at = λ s h. unfold finish in h }

  -- Behind the recovery nothing but a return or a panic of the recovery is left.
  recovered-IsOver :
      (e : Exit (Unit {0})) (s : Run W)
      → leaves e ≡ true
      → (is_stop e ≡ true → IsOver s.job.status)
      → (leaves (recovered env e s).0 ≡ true) × IsOver (recovered env e s).1.job.status
  unfolding recovered
  recovered-IsOver (next a) s l h = cc
  recovered-IsOver exhausted s l h = cc
  recovered-IsOver (stop e) s l h = (refl, h refl)
  recovered-IsOver (panicking v) s l h = left-Over _ ((recovers _).at s tt)

  guarded-IsOver :
      (s : Run W)
      → s.revisions ≡ 0
      → (leaves (guarded env s).0 ≡ true)
        × (is_stop (guarded env s).0 ≡ true → IsOver (guarded env s).1.job.status)
  unfolding guarded
  guarded-IsOver s h =
      let (l, o) =
        left_body (body env s) ((body-Stopping env).at s tt) ((body-NeverSpent env).at s h) in
      let (l', o') = leaves-after (body env s).0 (cleanup env (body env s).1).0 l in
      (
        l',
        λ q.
            guarded-Always env (λ t. is_stop (body env s).0 ≡ true → IsOver t.job.status)
              (λ t w k. k) (λ ws t k. k) (λ id t k. k) s o (o' q),
      )

  pub process_loaded-IsOver :
      (s : Run W)
      → s.revisions ≡ 0
      → (leaves (process_loaded env s).0 ≡ true) × IsOver (process_loaded env s).1.job.status
  unfolding process_loaded
  process_loaded-IsOver s h =
      let (l, o) = guarded-IsOver s h in
      let (l', o') = recovered-IsOver (guarded env s).0 (guarded env s).1 l o in
      (l', Always-at (Holds IsOver) _ _ (Keeps-count env same _ (λ t k. k)) o')
    where
      same : IsFrame {W = W} (Holds IsOver) (λ _. Holds IsOver)
      same = record { anywhere = λ s w h. h; breaks = λ s h. h }

  -- Every run of Process over a loaded job ends: it returns, or marking the job failed after a panic
  -- panics itself. Whatever the collaborators answer, and wherever one panics, the job that Process
  -- holds is then completed, failed or cancelled.
  pub process-returns_terminal :
      (id : Bytes) (job : Job) (w : W)
      → (leaves (process_loaded env (start env id job w)).0 ≡ true)
        × (is_terminal (process_loaded env (start env id job w)).1.job.status ≡ true)
  process-returns_terminal id job w = process_loaded-IsOver (start env id job w) refl
