-- ===== src/Agents/Calls/Checked.antt =====
-- About the checks of the answers of a model: internal/agents/planner/planner.go,
-- implementor/agent.go and reviewer/reviewer.go.
use rojo.Base.{bytes, Bytes, Bool-cases, true, false, List, ◌≡◌, ◌↔◌, refl, inl, inr, arith}
use rojo.Errors.{Result, ok, err}
use rojo.Agents.Types.{
  Plan, PlanRequest, Operation, ImplementRequest, request_changes, Review, ReviewRequest,
}
use rojo.Agents.Model.{Client, unfence}
use rojo.Agents.Calls.{is_blank, ask, plan_task, propose, review_change}
use rojo.Verification.Report.{all_passed}
use rojo.Agents.Calls.Rulings.{
  IsPlan, IsProposal, IsDecided, check_proposal-ok, check_review-ok, on_ok-ok, read_plan,
}

module _ {W : Type 0} (c : Client W) (system : Bytes) where
  -- The model has been asked with the request as it was marshalled, and has answered with a text.
  abbrev pub Answers : Result Bytes → W → Bytes → Type 0
  Answers request w text =
      (prompt : Bytes) × (request ≡ ok prompt) × ((c.generate system prompt w).0 ≡ ok text)

  ask-ok :
      (what : Bytes) (request : Result Bytes) (w : W) (text : Bytes)
      → ((ask c system what request w).0 ≡ ok text) ↔ Answers request w text
  unfolding ask
  ask-ok what (err e) w text = (λ h. cc, λ (p, m, h). absurd (let q = m in cc))
  ask-ok what (ok prompt) w text =
      (λ h. (prompt, refl, ground arith), λ (q, m, h). ground (arith, m))

  -- A planner returns a plan exactly when the task is not blank, the model answers with a text that is not
  -- blank, and that text, without a fence, is read as this plan, which has at least one step, each
  -- with an id and a description. A blank task asks no model: the world is as it was.
  pub plan_task-IsPlan :
      (req : PlanRequest) (w : W) (p : Plan)
      → (((plan_task c system req w).0 ≡ ok p) ↔ (
          (is_blank req.task ≡ false)
          × ((text : Bytes) × Answers (c.marshal_plan req) w text
              × (is_blank text ≡ false)
              × (c.unmarshal_plan (unfence text) ≡ ok p))
          × IsPlan p))
        × (is_blank req.task ≡ true → (plan_task c system req w).1 ≡ w)
  unfolding plan_task
  plan_task-IsPlan req w p =
      let answer = ask-ok (bytes "planner") (c.marshal_plan req) w in
      let read = on_ok-ok (ask c system (bytes "planner") (c.marshal_plan req) w).0 in
      elim (Bool-cases (is_blank req.task)) [
        | inl e ↦
            rw (e, plan_task)
              ((λ h. absurd (let q = h in cc), λ h. absurd (let q = h.0 in cc)), λ h. refl)
        | inr e ↦
            rw (e, plan_task)
              (
                (
                  λ h.
                      let (text, a, k) = (read _ p).0 h in
                      let (b, u, i) = (read_plan _ _ _ p).0 k in
                      (refl, (text, (answer text).0 a, b, u), i),
                  λ (n, (text, a, b, u), i).
                      (read _ p).1 (text, (answer text).1 a, (read_plan _ _ _ p).1 (b, u, i)),
                ),
                λ h. absurd (let q = h in cc),
              )
      ]

  -- Propose returns operations exactly when the task is not blank, the model answers, and its answer,
  -- without a fence, is read as these operations, at least one, each of a known kind and with a path.
  -- A blank task asks no model: the world is as it was.
  pub propose-IsProposal :
      (req : ImplementRequest) (w : W) (ops : List Operation)
      → (((propose c system req w).0 ≡ ok ops) ↔ (
          (is_blank req.task ≡ false)
          × ((text : Bytes) × Answers (c.marshal_implement req) w text
              × (c.unmarshal_operations (unfence text) ≡ ok ops))
          × IsProposal ops))
        × (is_blank req.task ≡ true → (propose c system req w).1 ≡ w)
  unfolding propose
  propose-IsProposal req w ops =
      let answer = ask-ok (bytes "implementor") (c.marshal_implement req) w in
      let read = on_ok-ok (ask c system (bytes "implementor") (c.marshal_implement req) w).0 in
      elim (Bool-cases (is_blank req.task)) [
        | inl e ↦
            rw (e, propose)
              ((λ h. absurd (let q = h in cc), λ h. absurd (let q = h.0 in cc)), λ h. refl)
        | inr e ↦
            rw (e, propose)
              (
                (
                  λ h.
                      let (text, a, k) = (read _ ops).0 h in
                      let (u, i) = (check_proposal-ok c.quote _ ops).0 k in
                      (refl, (text, (answer text).0 a, u), i),
                  λ (n, (text, a, u), i).
                      (read _ ops).1
                        (text, (answer text).1 a, (check_proposal-ok c.quote _ ops).1 (u, i)),
                ),
                λ h. absurd (let q = h in cc),
              )
      ]

  -- For a change whose checks did not all pass, Review returns a review without an error, its decision
  -- is request_changes, and no model is called: the world is as it was. So an approval has a report that
  -- passes behind it. For a report that passes, Review returns a review exactly when the model answers
  -- with it, and its decision is one of the three.
  pub review_change-IsDecided :
      (req : ReviewRequest) (w : W)
      → (all_passed req.verification ≡ false
          → ((v : Review) × ((review_change c system req w).0 ≡ ok v)
              × (v.decision ≡ request_changes))
            × ((review_change c system req w).1 ≡ w))
        × ((v : Review)
            → all_passed req.verification ≡ true
            → ((review_change c system req w).0 ≡ ok v) ↔ (
                ((text : Bytes) × Answers (c.marshal_review req) w text
                  × (c.unmarshal_review (unfence text) ≡ ok v))
                × IsDecided v.decision))
  unfolding review_change
  review_change-IsDecided req w =
      let answer = ask-ok (bytes "review") (c.marshal_review req) w in
      let read = on_ok-ok (ask c system (bytes "review") (c.marshal_review req) w).0 in
      (
        λ n. rw (n, review_change) ((_, refl, refl), refl),
        λ v y.
            rw (y, review_change)
              (
                λ h.
                    let (text, a, k) = (read _ v).0 h in
                    let (u, i) = (check_review-ok c.quote _ v).0 k in
                    ((text, (answer text).0 a, u), i),
                λ ((text, a, u), i).
                    (read _ v).1 (text, (answer text).1 a, (check_review-ok c.quote _ v).1 (u, i)),
              ),
      )
