-- ===== src/Agents/Calls/Rulings.antt =====
-- About the checks of the answers of a model, in internal/agents: what each lets through.
use rojo.Base.{
  ℕ, ◌+◌, Bytes, Bool, true, false, List, [], ◌∷◌, none, ◌≡◌, ◌≢◌, ◌↔◌, ◌⊎◌, refl, inl, inr, found,
  arith, All, if◌then◌else◌,
}
use mathlib.Core.Path.{subst}
use rojo.Errors.{Error, Result, ok, err}
use rojo.Agents.Types.{
  Plan, PlanStep, Operation, OpKind, other_kind, Decision, other_decision, Review,
}
use rojo.Agents.Calls.{
  is_blank, check_steps, judge_steps, check_plan, check_operations, check_proposal, check_review,
  on_ok,
}

-- A step that has an id and a description, and a plan of such steps, at least one.
abbrev IsStep : PlanStep → Type 0
IsStep s = (is_blank s.id ≡ false) × (is_blank s.description ≡ false)

abbrev pub IsPlan : Plan → Type 0
IsPlan p = (p.steps ≢ []) × All IsStep p.steps

check_steps-none : (i : ℕ) (ss : List PlanStep) → (check_steps i ss ≡ none) ↔ All IsStep ss
unfolding check_steps
check_steps-none i [] = (λ h. tt, λ h. refl)
check_steps-none i (s ∷ ss) = (
  λ h. ground (arith, (check_steps-none (i + 1) ss).0),
  λ h. ground (arith, (check_steps-none (i + 1) ss).1),
)

-- A check lets a value through as it is, or refuses it.
Ruling : {A : Type 0} → (A → Type 0) → A → Result A → Type 0
Ruling P a v = (P a × (v ≡ ok a)) ⊎ ((e : Error) × (v ≡ err e) × (P a → ⊥))

Ruling-ok :
    {A : Type 0} (P : A → Type 0) (a : A) (v : Result A)
    → Ruling P a v
    → (b : A) → (v ≡ ok b) ↔ ((ok a ≡ ok b) × P b)
unfolding Ruling
Ruling-ok P a v (inl (p, m)) b = rw m (λ h. (h, subst P (let e : a ≡ b = cc in e) p), λ (h, q). h)
Ruling-ok P a v (inr (e, m, n)) b =
    rw m (λ h. absurd (let q = h in cc), λ (h, q). absurd (n (subst P (let e : b ≡ a = cc in e) q)))

judge_steps_lem :
    (p : Plan) (ss : List PlanStep)
    → ((ss ≢ []) × All IsStep ss × (judge_steps p ss ≡ ok p))
      ⊎ ((e : Error) × (judge_steps p ss ≡ err e) × ((ss ≢ []) × All IsStep ss → ⊥))
unfolding judge_steps
judge_steps_lem p [] = inr (_, refl, λ i. i.0 refl)
judge_steps_lem p (s ∷ ss) = elim (found (check_steps 0 (s ∷ ss))) [
  | inl m ↦ rw (m, judge_steps) (inl (λ n. cc, (check_steps-none 0 (s ∷ ss)).0 m, refl))
  | inr (x, m) ↦
      rw (m, judge_steps)
        (inr (x, refl, λ i. absurd (let q = (check_steps-none 0 (s ∷ ss)).1 i.1 in cc)))
]

check_plan-Ruling : (p : Plan) → Ruling IsPlan p (check_plan (ok p))
unfolding check_plan Ruling
check_plan-Ruling p = elim (judge_steps_lem p p.steps) [
  | inl (n, a, e) ↦ inl ((n, a), e)
  | inr (x, e, m) ↦ inr (x, e, m)
]

check_plan-ok : (r : Result Plan) (p : Plan) → (check_plan r ≡ ok p) ↔ ((r ≡ ok p) × IsPlan p)
check_plan-ok (err e) p = unfold check_plan in (λ h. cc, λ h. cc)
check_plan-ok (ok q) p = Ruling-ok IsPlan q (check_plan (ok q)) (check_plan-Ruling q) p

-- An operation with a kind and a path, and a proposal of such operations, at least one.
abbrev IsKnown : OpKind → Type 0
IsKnown (other_kind k) = ⊥
IsKnown _ = Unit

abbrev IsProposed : Operation → Type 0
IsProposed op = IsKnown op.kind × (is_blank op.path ≡ false)

abbrev pub IsProposal : List Operation → Type 0
IsProposal ops = (ops ≢ []) × All IsProposed ops

abbrev pub IsDecided : Decision → Type 0
IsDecided (other_decision d) = ⊥
IsDecided _ = Unit

-- The check of the operation at the head of a list, and of a list.
check_operations-none :
    (quote : Bytes → Bytes) (i : ℕ) (ops : List Operation)
    → (check_operations quote i ops ≡ none) ↔ All IsProposed ops
unfolding check_operations
check_operations-none quote i [] = (λ h. tt, λ h. refl)
check_operations-none quote i (op ∷ ops) =
    let (to, back) : (_ ↔ _) = check_operations-none quote (i + 1) ops in
    (λ h. ground (arith, to), λ h. ground (arith, back))

check_proposal-Ruling :
    (quote : Bytes → Bytes) (ops : List Operation)
    → Ruling IsProposal ops (check_proposal quote (ok ops))
unfolding check_proposal Ruling
check_proposal-Ruling quote [] = inr (_, refl, λ i. i.0 refl)
check_proposal-Ruling quote (op ∷ ops) = elim (found (check_operations quote 0 (op ∷ ops))) [
  | inl m ↦
      rw (m, check_proposal) (inl ((λ n. cc, (check_operations-none quote 0 (op ∷ ops)).0 m), refl))
  | inr (x, m) ↦
      rw (m, check_proposal)
        (inr
          (x, refl, λ i. absurd (let q = (check_operations-none quote 0 (op ∷ ops)).1 i.1 in cc)))
]

pub check_proposal-ok :
    (quote : Bytes → Bytes) (r : Result (List Operation)) (ops : List Operation)
    → (check_proposal quote r ≡ ok ops) ↔ ((r ≡ ok ops) × IsProposal ops)
check_proposal-ok quote (err e) ops = unfold check_proposal in (λ h. cc, λ h. cc)
check_proposal-ok quote (ok ps) ops =
    Ruling-ok IsProposal ps (check_proposal quote (ok ps)) (check_proposal-Ruling quote ps) ops

pub check_review-ok :
    (quote : Bytes → Bytes) (r : Result Review) (v : Review)
    → (check_review quote r ≡ ok v) ↔ ((r ≡ ok v) × IsDecided v.decision)
check_review-ok quote (err e) v = unfold check_review in (λ h. cc, λ h. cc)
check_review-ok quote (ok u) v = unfold check_review in (λ h. ground arith, λ h. ground arith)

pub on_ok-ok :
    {A : Type 0} (r : Result Bytes) (f : Bytes → Result A) (a : A)
    → (on_ok r f ≡ ok a) ↔ ((text : Bytes) × (r ≡ ok text) × (f text ≡ ok a))
on_ok-ok (err e) f a = (λ h. cc, λ (t, m, h). absurd (let q = m in cc))
on_ok-ok (ok t) f a = (λ h. (t, refl, h), λ (u, m, h). rw (let e : t ≡ u = cc in e) h)

pub read_plan :
    (r : Result Plan) (blank : Bool) (e : Error) (p : Plan)
    → ((if blank then err e else check_plan r) ≡ ok p) ↔ ((blank ≡ false) × (r ≡ ok p) × IsPlan p)
read_plan r true e p = (λ h. cc, λ h. absurd (let q = h.0 in cc))
read_plan r false e p = (
  λ h. let (u, i) = (check_plan-ok r p).0 h in (refl, u, i),
  λ (b, u, i). (check_plan-ok r p).1 (u, i),
)
