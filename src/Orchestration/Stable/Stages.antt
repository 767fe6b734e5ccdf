-- ===== src/Orchestration/Stable/Stages.antt =====
-- What the implementing, the verifying and the reviewing step keep, and one round of the loop.
use rojo.Base.{some, none, inl, inr, ◌∙◌, length, ltb, Bytes, List, Option, none, ◌≡◌, sym, ap}
use rojo.Errors.{Error}
use rojo.Verification.Report.{Report}
use rojo.Orchestration.Candidate.{Candidate, summarise, select_winner}
use rojo.Orchestration.Env.{Ctx, Payload, Env, Call, job_ctx, fanout_completed}
use rojo.Orchestration.Run.{Run, pure, ◌>>=◌, ◌>>◌, modify, when}
use rojo.Orchestration.Run.Keeps.{
  Left, Hoare, Keeps, IsFrame, Hoare-bind, Hoare-and, Hoare-mono, Hoare-gets, Hoare-when,
  Hoare-pure, Hoare-modify, Keeps-bind, Keeps-gets, Hoare-on_option, Keeps-note, Keeps-when,
  Keeps-when_some, keeps_rules,
}
use rojo.Orchestration.Run.Yields.{Yields, Yields-bind, Yields-pure, Yields-on_known, yields_rules}
use rojo.Orchestration.Actions.{emit}
use rojo.Orchestration.Stable.{Vouches, Quiet, Stable, Keeps-fail_with}
use rojo.Orchestration.Stable.Attempts.{
  Keeps-implement_each, implement_each-ws, Keeps-verify_each, verify_each-ws, Keeps-report_each,
  Keeps-capture_diff, checkouts,
}
use rojo.Orchestration.Choice.{verdict_of_lem, passed_of_first}
use rojo.Orchestration.Attempts.{
  capture_diff, verify_each, implementing_stage, report_each, verdict_of, verify, verifying_stage,
}

module _ {W : Type 0} (env : Env W) (cs : List Candidate) where
  emit-cands :
      (ctx : Ctx) (p : Payload) → Keeps (λ s. s.cands ≡ cs) (λ _ _. Unit {0}) (emit env ctx p)
  unfolding emit
  emit-cands ctx p = search (keeps_rules, Keeps-note, unchanged) depth 9
    where
      unchanged : IsFrame {W = W} (λ s. s.cands ≡ cs) (λ _ _. Unit {0})
      unchanged = record { anywhere = λ s w h. h; breaks = λ s h. tt }

  same_cands : Quiet env (λ s. s.cands ≡ cs) (λ _ _. Unit {0})
  same_cands = record {
    frame = record { anywhere = λ s w h. h; breaks = λ s h. tt };
    emits = λ ctx p _. emit-cands ctx p;
  }

module _ {W : Type 0} (env : Env W) where
  verdict-Vouches : (cs : List Candidate) → Vouches env (verdict_of cs)
  verdict-Vouches cs v passes = elim (verdict_of_lem cs) [
    | inl (c, e, f) ↦ (c, ap (λ r. r.0) e, passed_of_first f)
    | inr (x, e, k) ↦ let shut : some x ≡ none = sym (ap (λ r. r.1) e) ∙ passes in cc
  ]

  verify-Vouches : Yields (Vouches env) (verify env)
  unfolding verify
  verify-Vouches = Yields-bind _ _ λ cs.
      Yields-on_known env.verifier _ _ (λ no. Yields-pure _ (λ yes _. cc (no, yes)))
        (λ verifier. search (yields_rules, verdict-Vouches) depth 12)

module _ {W : Type 0} {env : Env W} {I : Run W → Type 0} {X : Left → Run W → Type 0}
    (st : Stable env I X) where
  -- Behind a loop that leaves the candidates and their checkouts alone the loop's result may take
  -- their place.
  pub Keeps-implementing_stage : Keeps I X (implementing_stage env)
  unfolding implementing_stage
  Keeps-implementing_stage = Keeps-when_some env.implementor _ λ propose.
      Hoare-bind (λ s0 s. I s × (s0 ≡ s)) _ _ (Hoare-gets (λ s. s))
        λ s0.
          Hoare-when _ _
            (λ _.
              Hoare-bind
                (λ r s. I s × ((s.cands ≡ s0.cands) × (checkouts r.0 ≡ checkouts s0.cands))) _ _
                (Hoare-mono (λ s h. (h.0, (ap (λ t. t.cands) (sym h.1), tt))) (λ r s h. h)
                  (Hoare-and (Keeps-implement_each st.quiet propose s0.feedback s0.cands none 0) (
                    Hoare-and
                      (Keeps-implement_each (same_cands env s0.cands) propose s0.feedback s0.cands
                        none 0)
                      (implement_each-ws env propose s0.feedback s0.cands none 0))))
                λ r.
                  Hoare-bind (λ _. I) _ _
                    (Hoare-modify _ (λ s h. st.attempts r.0 s (cc (h.1.0, h.1.1)) h.0))
                    λ _. Keeps-when _ _ (Keeps-fail_with st _))
            (λ _ s h. h.0)

  Keeps-verify_all :
      (verifier : Bytes → W → Call (Report × Option Error) × W) (cs : List Candidate)
      → Hoare
          (λ s. I s × (cs ≡ s.cands))
          (do
            cs' ← verify_each env verifier cs
            modify (λ s. record s { cands = cs' })
            report_each env cs'
            when
                (ltb 1 (length cs'))
                (emit env job_ctx (fanout_completed (summarise cs' (select_winner cs'))))
            pure (verdict_of cs'))
          (λ _. I)
          X
  Keeps-verify_all verifier cs =
      Hoare-bind (λ ds s. I s × ((s.cands ≡ cs) × (checkouts ds ≡ checkouts cs))) _ _
        (Hoare-mono (λ s h. (h.0, (sym h.1, tt))) (λ r s h. h)
          (Hoare-and (Keeps-verify_each st.quiet verifier cs) (
            Hoare-and (Keeps-verify_each (same_cands env cs) verifier cs)
              (verify_each-ws env verifier cs))))
        λ ds.
          Hoare-bind (λ _. I) _ _ (Hoare-modify _ (λ s h. st.attempts ds s (cc (h.1.0, h.1.1)) h.0))
            λ _. search (keeps_rules, Keeps-report_each st.quiet, st.emits) depth 9

  pub Keeps-verify : Keeps I X (verify env)
  unfolding verify
  Keeps-verify =
      Hoare-bind (λ cs s. I s × (cs ≡ s.cands)) _ _ (Hoare-gets (λ s. s.cands))
        λ cs.
          Hoare-on_option env.verifier _ _ (Hoare-pure _ (λ s h. h.0))
            (λ verifier. Keeps-verify_all verifier cs)

  -- Behind the gate.
  pub Hoare-gated :
      (J : Run W → Type 0)
      → Quiet env J X
      → ((r : Option Candidate × Option Error) (s : Run W)
          → Vouches env r
          → I s
          → J (record s { winner = r.0; gate_error = r.1 }))
      → Hoare I
          (do
            (best, problem) ← verify env
            modify (λ s. record s { winner = best; gate_error = problem })
            capture_diff env best)
          (λ _. J)
          X
  Hoare-gated J q set =
      Hoare-bind (λ r s. I s × Vouches env r) _ _
        (Hoare-mono (λ s h. (h, tt)) (λ r s h. h) (Hoare-and Keeps-verify (verify-Vouches env)))
        λ r.
          Hoare-bind (λ _. J) _ _ (Hoare-modify _ (λ s h. set r s h.1 h.0))
            λ _. Keeps-capture_diff q r.0

  pub Keeps-verifying_stage : Keeps I X (verifying_stage env)
  unfolding verifying_stage
  Keeps-verifying_stage =
      Keeps-bind _ _ (Keeps-gets (λ s. s.cands))
        λ cands. Keeps-when _ _ (Hoare-gated I st.quiet (λ r s v h. st.decides r.0 r.1 s v h))
