-- ===== src/Orchestration/Candidate.antt =====
-- internal/orchestration/fanout.go: the attempts at a job, and the choice between them.
use rojo.Base.{
  ℕ, Bytes, Bool, ◌&&◌, not, List, [], ◌∷◌, ◌++◌, ◌+◌, ◌-◌, Option, none, some, bytes, length,
  decimal, is_some, ltb, leb, if◌then◌else◌, map,
}
use rojo.Errors.{Error, plain, wrap, join, error_text}
use rojo.Verification.Report.{Report, all_passed, summary}

-- internal/workspace/manager.go, the struct Workspace.
pub record Workspace : Type 0 where
  pub job_id : Bytes
  pub branch : Bytes
  pub path : Bytes
  pub repo_path : Bytes

pub record Candidate : Type 0 where
  pub index : ℕ
  pub ws : Option Workspace
  pub report : Report
  pub error : Option Error
  pub impl_error : Option Error
  pub touched : List Bytes

unfoldable pub failure : Candidate → Option Error
failure c = elim c.impl_error [ some e ↦ some e | none ↦ c.error ]

unfoldable pub implemented : Candidate → Bool
implemented c = is_some c.ws && not (is_some c.impl_error)

unfoldable pub passed : Candidate → Bool
unfolding failure
passed c = not (is_some (failure c)) && (is_some c.ws && all_passed c.report)

abbrev pub max_variants : ℕ
max_variants = 8

unfoldable pub variant_id : Bytes → ℕ → ℕ → Bytes
unfolding bytes decimal
variant_id job_id index total =
    if leb total 1 then job_id else job_id ++ (bytes "-v" ++ decimal index)

-- A negative request, which the source clamps to 1 as well, is not modelled.
unfoldable pub variant_count : ℕ → ℕ
variant_count requested =
    if ltb requested 1 then 1 else if ltb max_variants requested then max_variants else requested

-- The loop over the candidates; `none` is the source's (nil, false).
unfoldable pub select_winner : List Candidate → Option Candidate
select_winner [] = none
select_winner (c ∷ cs) = if passed c then some c else select_winner cs

unfoldable pub first_implemented : List Candidate → Option Candidate
first_implemented [] = none
first_implemented (c ∷ cs) = if implemented c then some c else first_implemented cs

abbrev pub head? {ℓ} : {A : Type ℓ} → List A → Option A
head? [] = none
head? (a ∷ as') = some a

abbrev pub or_else {ℓ} : {A : Type ℓ} → Option A → Option A → Option A
or_else none b = b
or_else (some a) b = some a

unfoldable pub representative : List Candidate → Option Candidate
unfolding first_implemented
representative cs = or_else (first_implemented cs) (head? cs)

pub record VariantOutcome : Type 0 where
  pub variant : ℕ
  pub passed_checks : Bool
  pub checks : Bytes
  pub problem : Option Bytes

-- `winner` is none where the source has -1.
pub record FanoutSummary : Type 0 where
  pub total : ℕ
  pub passes : ℕ
  pub winner : Option ℕ
  pub results : List VariantOutcome

variant_outcome : Candidate → VariantOutcome
unfolding failure
variant_outcome c = record {
  variant = c.index;
  passed_checks = passed c;
  checks = summary c.report;
  problem = elim (failure c) [ none ↦ none | some e ↦ some (error_text e) ];
}

unfoldable pub count_passed : List Candidate → ℕ
count_passed [] = 0
count_passed (c ∷ cs) = (if passed c then 1 else 0) + count_passed cs

unfoldable pub summarise : List Candidate → Option Candidate → FanoutSummary
unfolding variant_outcome count_passed
summarise cs best = record {
  total = length cs;
  passes = count_passed cs;
  winner = elim best [ none ↦ none | some c ↦ some c.index ];
  results = map variant_outcome cs;
}

-- The errors that are joined behind the first line, in the order of the candidates.
unfoldable pub join_failures : Error → List Candidate → Error
unfolding failure bytes decimal
join_failures e [] = e
join_failures e (c ∷ cs) =
    join_failures
      (elim (failure c) [
        | none ↦ e
        | some why ↦ join e (wrap (bytes "variant " ++ (decimal c.index ++ bytes ": ")) why [])
      ])
      cs

unfoldable pub fanout_failure : List Candidate → FanoutSummary → Error
unfolding join_failures
fanout_failure cs s =
    join_failures
      (plain (
        bytes "no variant passed verification: "
        ++ (decimal (s.total - s.passes)
            ++ (bytes " of " ++ (decimal s.total ++ bytes " attempts failed")))))
      cs
