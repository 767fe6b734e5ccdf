-- ===== src/Orchestration/Stable/Methods.antt =====
-- What the small methods of Processor keep, from what a change of status and an entry of the trace
-- keep.
use rojo.Base.{ℕ, Bytes, Bool, ◌∷◌, Option, none, some, ◌≡◌, refl}
use rojo.Errors.{Error, Result, ok, err}
use rojo.Jobs.Status.{Status, Job, transition}
use rojo.Orchestration.Env.{Payload, Ctx, Env}
use rojo.Orchestration.Run.{
  Run, published, stored, counted, Metric, pure, ◌>>=◌, ◌>>◌, gets, modify, observe, on_result,
}
use rojo.Orchestration.Run.Keeps.{Left, Post, Hoare, Keeps, IsFrame, Keeps-note, keeps_rules}
use rojo.Orchestration.Actions.{emit, count, move, update}

module _ {W : Type 0} (env : Env W) {I : Run W → Type 0} {X : Left → Run W → Type 0}
    (fr : IsFrame I X) where
  pub Keeps-emit :
      (ctx : Ctx) (p : Payload)
      → ((id : Bytes) (s : Run W)
          → I s
          → I (record s {
            trace = published ctx (record { job_id = id; payload = p; created_at = 0 }) ∷ s.trace;
          }))
      → Keeps I X (emit env ctx p)
  unfolding emit
  Keeps-emit ctx p k = search (keeps_rules, fr, Keeps-note, k) depth 9

  pub Keeps-count :
      (m : Metric)
      → ((s : Run W) → I s → I (record s { trace = counted m ∷ s.trace }))
      → Keeps I X (count env m)
  unfolding count
  Keeps-count m k = search (keeps_rules, Keeps-note, k) depth 9

  pub Keeps-update :
      (ctx : Ctx)
      → ((j : Job) (took : Bool) (s : Run W)
          → I s
          → I (record s { trace = stored ctx j took ∷ s.trace }))
      → Keeps I X (update env ctx)
  unfolding update
  Keeps-update ctx k = search (keeps_rules, fr, Keeps-note, k) depth 9

module _ {W : Type 0} (env : Env W) {I : Run W → Type 0} (X : Left → Run W → Type 0)
    (Q : Option Error → Run W → Type 0)
    (anywhere : (s : Run W) (w : W) → I s → I (record s { world = w })) (to : Status)
    (moves : (j : Job) (now : ℕ) (s : Run W)
      → transition now s.job to ≡ ok j
      → I s
      → Q none (record s { job = j }))
    (stays : (e : Error) (now : ℕ) (s : Run W)
      → transition now s.job to ≡ err e
      → I s
      → Q (some e) s) where
  move_on :
      (r : Result Job) (now : ℕ) (s : Run W)
      → transition now s.job to ≡ r
      → I s
      → Post Q X (
          on_result r
            (λ e. pure {W = W} (some e))
            (λ j. do modify (λ s. record s { job = j }); pure none)
            s)
  unfolding on_result pure ◌>>=◌ modify
  move_on (ok j) now s e h = moves j now s e h
  move_on (err x) now s e h = stays x now s e h

  -- A change of status, or a refusal that leaves the job alone.
  pub Hoare-move : Hoare I (move env to) Q X
  unfolding move ◌>>=◌ gets observe
  Hoare-move = record {
    at = λ s h.
        let (now, w) = env.now s.world in
        move_on (transition now s.job to) now (record s { world = w }) refl (anywhere s w h);
  }
