-- ===== src/Orchestration/Choice.antt =====
-- The choice between the attempts at a job (internal/orchestration/fanout.go), and what the gate
-- makes of it.
use rojo.Base.{
  ℕ, Bool-cases, true, false, List, [], ◌∷◌, ◌≤◌, none, some, ◌≡◌, refl, ◌⊎◌, inl, inr, arith,
}
use rojo.Errors.{Error}
use rojo.Orchestration.Candidate.{
  Candidate, passed, select_winner, representative, count_passed, variant_count, max_variants,
  fanout_failure, summarise,
}
use rojo.Orchestration.Attempts.{verdict_of}

-- `c` stands in the list, none before it passed, and it passed.
pub data FirstPassed (c : Candidate) : List Candidate → Type 0 where
  here : {cs : List Candidate} → passed c ≡ true → FirstPassed c (c ∷ cs)
  later :
      {d : Candidate} {cs : List Candidate}
      → passed d ≡ false
      → FirstPassed c cs
      → FirstPassed c (d ∷ cs)

pub passed_of_first : {c : Candidate} {cs : List Candidate} → FirstPassed c cs → passed c ≡ true
passed_of_first (here h) = h
passed_of_first (later n f) = passed_of_first f

some_passed : {c : Candidate} {cs : List Candidate} → FirstPassed c cs → 1 ≤ count_passed cs
unfolding count_passed
some_passed (here {cs} h) = rw h (omega arith)
some_passed (later {d} {cs} n f) = rw n (omega (arith, some_passed f))

-- The winner is the first attempt that passed, and there is none exactly where the count of the
-- passed attempts is zero.
pub select_winner_lem :
    (cs : List Candidate)
    → ((c : Candidate) × (select_winner cs ≡ some c) × FirstPassed c cs × (1 ≤ count_passed cs))
      ⊎ ((select_winner cs ≡ none) × (count_passed cs ≡ 0))
unfolding select_winner count_passed
select_winner_lem [] = inr (refl, refl)
select_winner_lem (c ∷ cs) = elim (Bool-cases (passed c)) [
  | inl p ↦ inl (c, rw p refl, here p, rw p (omega arith))
  | inr n ↦ elim (select_winner_lem cs) [
    | inl (d, e, f, k) ↦ inl (d, rw n e, later n f, rw n (omega arith))
    | inr (e, k) ↦ inr (rw n e, rw n (omega arith))
  ]
]

-- The gate is open exactly where some attempt passed, and then the attempt that it names is the
-- first one that did. Where none passed it names the attempt that stands for the job.
pub verdict_of_lem :
    (cs : List Candidate)
    → ((c : Candidate) × (verdict_of cs ≡ (some c, none)) × FirstPassed c cs)
      ⊎ ((e : Error) × (verdict_of cs ≡ (representative cs, some e)) × (count_passed cs ≡ 0))
unfolding verdict_of
verdict_of_lem cs = elim (select_winner_lem cs) [
  | inl (c, e, f, k) ↦ inl (c, rw (verdict_of, e) refl, f)
  | inr (e, k) ↦ inr (fanout_failure cs (summarise cs none), rw (verdict_of, e) refl, k)
]

-- The number of attempts is between one and eight, and the number asked for where that is.
pub variant_count_bounds :
    (n : ℕ)
    → (1 ≤ variant_count n)
      × (variant_count n ≤ max_variants)
      × (1 ≤ n → n ≤ max_variants → variant_count n ≡ n)
unfolding variant_count
variant_count_bounds n = ground arith
