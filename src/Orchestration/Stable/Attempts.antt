-- ===== src/Orchestration/Stable/Attempts.antt =====
-- What the loops over the candidates keep.
use rojo.Base.{ℕ, Bytes, List, [], ◌∷◌, map, Option, ◌≡◌, refl}
use rojo.Errors.{Error, Result}
use rojo.Verification.Report.{Report}
use rojo.Agents.Types.{Operation, ImplementRequest}
use rojo.Orchestration.Candidate.{Workspace, Candidate}
use rojo.Orchestration.Env.{Env, Call, returns, panics}
use rojo.Orchestration.Run.{Run}
use rojo.Orchestration.Run.Keeps.{Left, Keeps, Keeps-bind, Keeps-pure, keeps_rules}
use rojo.Orchestration.Run.Yields.{Yields, Yields-pure, Yields-then, yields_rules}
use rojo.Orchestration.Stable.{Quiet}
use rojo.Orchestration.Attempts.{
  spoilt, judged, implement_in, implement_one, implement_each, verify_one, verify_each, report_each,
  save_diff, capture_diff, tally, last_problem,
}

module _ {W : Type 0} {env : Env W} {I : Run W → Type 0} {X : Left → Run W → Type 0}
    (q : Quiet env I X) where
  Keeps-implement_in :
      (propose : ImplementRequest → W → Call (Result (List Operation)) × W) (c : Candidate)
      (ws : Workspace)
      → Keeps I X (implement_in env propose c ws)
  unfolding implement_in
  Keeps-implement_in propose c ws = search (keeps_rules, q.frame, q.emits) depth 12

  Keeps-implement_one :
      (propose : ImplementRequest → W → Call (Result (List Operation)) × W) (f : Bytes)
      (c : Candidate)
      → Keeps I X (implement_one env propose f c)
  unfolding implement_one
  Keeps-implement_one propose f c = search (keeps_rules, Keeps-implement_in) depth 9

  pub Keeps-implement_each :
      (propose : ImplementRequest → W → Call (Result (List Operation)) × W) (f : Bytes)
      (cs : List Candidate) (problem : Option Error) (n : ℕ)
      → Keeps I X (implement_each env propose f cs problem n)
  unfolding implement_each
  Keeps-implement_each propose f [] problem n = search keeps_rules
  Keeps-implement_each propose f (c ∷ cs) problem n =
      let rest = Keeps-implement_each propose f cs in
      search (keeps_rules, Keeps-implement_one, rest) depth 9

  Keeps-verify_one :
      (verifier : Bytes → W → Call (Report × Option Error) × W) (c : Candidate)
      → Keeps I X (verify_one env verifier c)
  unfolding verify_one
  Keeps-verify_one verifier c = search (keeps_rules, q.frame) depth 9

  pub Keeps-verify_each :
      (verifier : Bytes → W → Call (Report × Option Error) × W) (cs : List Candidate)
      → Keeps I X (verify_each env verifier cs)
  unfolding verify_each
  Keeps-verify_each verifier [] = search keeps_rules
  Keeps-verify_each verifier (c ∷ cs) =
      Keeps-bind _ _ (Keeps-verify_one verifier c)
        λ c'. Keeps-bind _ _ (Keeps-verify_each verifier cs) λ cs'. Keeps-pure (c' ∷ cs')

  pub Keeps-report_each : (cs : List Candidate) → Keeps I X (report_each env cs)
  unfolding report_each
  Keeps-report_each [] = search keeps_rules
  Keeps-report_each (c ∷ cs) = Keeps-bind _ _ (search (q.emits)) λ _. Keeps-report_each cs

  Keeps-save_diff :
      (write : Bytes → Bytes → Bytes → W → Call (Option Error) × W) (c : Candidate) (d : Bytes)
      → Keeps I X (save_diff env write c d)
  unfolding save_diff
  Keeps-save_diff write c d = search (keeps_rules, q.frame, q.emits) depth 9

  pub Keeps-capture_diff : (best : Option Candidate) → Keeps I X (capture_diff env best)
  unfolding capture_diff
  Keeps-capture_diff best = search (keeps_rules, q.frame, q.emits, Keeps-save_diff) depth 12

abbrev pub checkouts : List Candidate → List (Option Workspace)
checkouts cs = map (λ c. c.ws) cs

module _ {W : Type 0} (env : Env W) where
  implement_in-ws :
      (propose : ImplementRequest → W → Call (Result (List Operation)) × W) (c : Candidate)
      (ws : Workspace)
      → Yields (λ r. r.0.ws ≡ c.ws) (implement_in env propose c ws)
  unfolding implement_in spoilt
  implement_in-ws propose c ws = search (yields_rules) depth 12

  implement_one-ws :
      (propose : ImplementRequest → W → Call (Result (List Operation)) × W) (f : Bytes)
      (c : Candidate)
      → Yields (λ r. r.0.ws ≡ c.ws) (implement_one env propose f c)
  unfolding implement_one
  implement_one-ws propose f c = search (yields_rules, implement_in-ws) depth 12

  pub implement_each-ws :
      (propose : ImplementRequest → W → Call (Result (List Operation)) × W) (f : Bytes)
      (cs : List Candidate) (problem : Option Error) (n : ℕ)
      → Yields (λ r. checkouts r.0 ≡ checkouts cs) (implement_each env propose f cs problem n)
  unfolding implement_each
  implement_each-ws propose f [] problem n = Yields-pure ([], problem, n) refl
  implement_each-ws propose f (c ∷ cs) problem n =
      Yields-then _ _ (implement_one-ws propose f c) λ r h.
        Yields-then _ _ (implement_each-ws propose f cs (last_problem r.1 problem) (tally r.1 n))
          λ r' h'. Yields-pure _ (cc (h, h'))

  judged-ws : (c : Candidate) (v : Call (Report × Option Error)) → (judged c v).ws ≡ c.ws
  unfolding judged
  judged-ws c (returns r) = refl
  judged-ws c (panics v) = refl

  verify_one-ws :
      (verifier : Bytes → W → Call (Report × Option Error) × W) (c : Candidate)
      → Yields (λ d. d.ws ≡ c.ws) (verify_one env verifier c)
  unfolding verify_one
  verify_one-ws verifier c = search (yields_rules, judged-ws) depth 12

  pub verify_each-ws :
      (verifier : Bytes → W → Call (Report × Option Error) × W) (cs : List Candidate)
      → Yields (λ ds. checkouts ds ≡ checkouts cs) (verify_each env verifier cs)
  unfolding verify_each
  verify_each-ws verifier [] = Yields-pure [] refl
  verify_each-ws verifier (c ∷ cs) =
      Yields-then _ _ (verify_one-ws verifier c) λ d h.
        Yields-then _ _ (verify_each-ws verifier cs) λ ds h'. Yields-pure (d ∷ ds) (cc (h, h'))
