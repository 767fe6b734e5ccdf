-- ===== src/Agents/Calls.antt =====
-- The calls of a model: Plan of internal/agents/planner/planner.go, Propose of implementor/agent.go and
-- Review of reviewer/reviewer.go. The system prompts are parameters.
pub mod Rulings
pub mod Checked
use rojo.Base.{
  ℕ, ◌+◌, Bytes, Bool, true, false, not, ◌||◌, List, [], ◌∷◌, ◌++◌, Option, none, some, bytes,
  decimal, is_empty, trim_space, if◌then◌else◌,
}
use rojo.Errors.{
  Error, sentinel, wrap, error_text, empty_plan, invalid_plan, no_operations, invalid_operations,
  invalid_decision, Result, ok, err,
}
use rojo.Agents.Types.{
  Plan, PlanStep, PlanRequest, Operation, OpKind, write, append, delete, other_kind,
  ImplementRequest, Decision, approve, request_changes, reject, other_decision, Review,
  ReviewRequest,
}
use rojo.Agents.Model.{Client, unfence}
use rojo.Verification.Report.{Report, all_passed}

abbrev pub is_blank : Bytes → Bool
is_blank s = is_empty (trim_space s)

-- fmt.Errorf("%w: …", sentinel, …)
unfoldable pub refused : Error → Bytes → Error
unfolding bytes
refused e text = wrap [] e (bytes ": " ++ text)

-- The loop over the steps of a plan, at the index of the first.
unfoldable pub check_steps : ℕ → List PlanStep → Option Error
unfolding bytes decimal
check_steps i [] = none
check_steps i (s ∷ ss) =
    let rest = check_steps (i + 1) ss in
    if is_blank s.id || is_blank s.description
    then some (
        refused (sentinel invalid_plan)
          (bytes "step " ++ (decimal i ++ bytes " missing id or description")))
    else rest

-- The checks of a plan that was read, and those of its steps.
unfoldable pub judge_steps : Plan → List PlanStep → Result Plan
unfolding bytes
judge_steps plan [] = err (refused (sentinel invalid_plan) (bytes "no steps"))
judge_steps plan (s ∷ ss) = elim (check_steps 0 (s ∷ ss)) [ some e ↦ err e | none ↦ ok plan ]

unfoldable pub check_plan : Result Plan → Result Plan
unfolding judge_steps
check_plan (err e) = err (refused (sentinel invalid_plan) (error_text e))
check_plan (ok plan) = judge_steps plan plan.steps

-- The loop over proposed operations.
unfoldable pub check_operations : (Bytes → Bytes) → ℕ → List Operation → Option Error
unfolding bytes decimal
check_operations quote i [] = none
check_operations quote i (op ∷ ops) =
    let rest = check_operations quote (i + 1) ops in
    let here =
      if is_blank op.path
      then some (
          refused (sentinel invalid_operations)
            (bytes "op " ++ (decimal i ++ bytes " has no path")))
      else rest in
    elim op.kind [
      | other_kind k ↦ some (
          refused (sentinel invalid_operations)
            (bytes "op " ++ (decimal i ++ (bytes " has unknown kind " ++ quote k))))
      | _ ↦ here
    ]

unfoldable pub check_proposal : (Bytes → Bytes) → Result (List Operation) → Result (List Operation)
check_proposal quote (err e) = err (refused (sentinel invalid_operations) (error_text e))
check_proposal quote (ok []) = err (sentinel no_operations)
check_proposal quote (ok (op ∷ ops)) = elim (check_operations quote 0 (op ∷ ops)) [
  | some e ↦ err e
  | none ↦ ok (op ∷ ops)
]

unfoldable pub check_review : (Bytes → Bytes) → Result Review → Result Review
check_review quote (err e) = err (refused (sentinel invalid_decision) (error_text e))
check_review quote (ok r) = elim r.decision [
  | other_decision d ↦ err (refused (sentinel invalid_decision) (quote d))
  | _ ↦ ok r
]

-- An error is returned as it is.
abbrev pub on_ok : {A : Type 0} → Result Bytes → (Bytes → Result A) → Result A
on_ok (err e) f = err e
on_ok (ok text) f = f text

module _ {W : Type 0} (c : Client W) (system : Bytes) where
  -- One call of the model: the request as it was marshalled, and the answer.
  unfoldable pub ask : Bytes → Result Bytes → W → Result Bytes × W
  unfolding bytes
  ask what (err e) w = (err (wrap (bytes "marshal " ++ (what ++ bytes " request: ")) e []), w)
  ask what (ok prompt) w =
      let (answer, w1) = c.generate system prompt w in
      (elim answer [ err e ↦ err (wrap (bytes "model call: ") e []) | ok text ↦ ok text ], w1)

  -- The method Plan of Planner.
  unfoldable pub plan_task : PlanRequest → W → Result Plan × W
  unfolding bytes
  plan_task req w =
      if is_blank req.task
      then (err (refused (sentinel invalid_plan) (bytes "task is empty")), w)
      else let (answer, w1) = ask (bytes "planner") (c.marshal_plan req) w in
        (
          on_ok answer (λ text.
              if is_blank text
              then err (sentinel empty_plan)
              else check_plan (c.unmarshal_plan (unfence text))),
          w1,
        )

  -- Propose
  unfoldable pub propose : ImplementRequest → W → Result (List Operation) × W
  unfolding bytes
  propose req w =
      if is_blank req.task
      then (err (refused (sentinel invalid_operations) (bytes "task is empty")), w)
      else let (answer, w1) = ask (bytes "implementor") (c.marshal_implement req) w in
        (on_ok answer (λ text. check_proposal c.quote (c.unmarshal_operations (unfence text))), w1)

  -- Review
  unfoldable pub review_change : ReviewRequest → W → Result Review × W
  unfolding bytes
  review_change req w =
      if not (all_passed req.verification)
      then (
        ok (record {
          decision = request_changes;
          notes = bytes "deterministic checks failed";
          reasons = [];
        }),
        w,
      )
      else let (answer, w1) = ask (bytes "review") (c.marshal_review req) w in
        (on_ok answer (λ text. check_review c.quote (c.unmarshal_review (unfence text))), w1)
