-- ===== src/Agents/Model.antt =====
-- internal/agents/model: Unfence of unfence.go, and what the agents call of a model.Client and of
-- encoding/json.
pub mod Fences
use rojo.Base.{
  ℕ, Bytes, Bool, List, [], ◌∷◌, Option, none, some, bytes, cut_byte, has_prefix, not, trim_space,
  if◌then◌else◌,
}
use rojo.Errors.{Error, Result}
use rojo.Agents.Types.{Plan, PlanRequest, Operation, ImplementRequest, Review, ReviewRequest}

-- strings.LastIndex: the text before the last place where `p` stands.
unfoldable pub before_last : Bytes → Bytes → Option Bytes
unfolding has_prefix
before_last p [] = none
before_last p (b ∷ s) = elim (before_last p s) [
  | some t ↦ some (b ∷ t)
  | none ↦ if has_prefix (b ∷ s) p then some [] else none
]

abbrev pub fence : Bytes
fence = 96 ∷ 96 ∷ 96 ∷ []

-- The text behind the first line, if it has an end.
unfoldable pub drop_line : Bytes → Bytes
unfolding cut_byte
drop_line s = elim (cut_byte 10 s) [ none ↦ s | some (l, r) ↦ r ]

-- The text before the closing fence, if there is one.
unfoldable pub drop_close : Bytes → Bytes
unfolding before_last
drop_close s = elim (before_last fence s) [ none ↦ s | some t ↦ t ]

unfoldable pub unfence : Bytes → Bytes
unfolding has_prefix drop_line drop_close
unfence raw =
    let s = trim_space raw in
    if not (has_prefix s fence) then s else trim_space (drop_close (drop_line s))

-- Generate at a system prompt and a prompt; json.Marshal of a request and json.Unmarshal of the
-- answers; strconv.Quote.
pub record Client (W : Type 0) : Type 0 where
  pub generate : Bytes → Bytes → W → Result Bytes × W
  pub marshal_plan : PlanRequest → Result Bytes
  pub marshal_implement : ImplementRequest → Result Bytes
  pub marshal_review : ReviewRequest → Result Bytes
  pub unmarshal_plan : Bytes → Result Plan
  pub unmarshal_operations : Bytes → Result (List Operation)
  pub unmarshal_review : Bytes → Result Review
  pub quote : Bytes → Bytes
