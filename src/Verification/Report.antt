-- ===== src/Verification/Report.antt =====
-- internal/verification/verification.go, and Summary of runner.go.
use rojo.Base.{
  ℕ, Bytes, Bool, true, false, List, [], ◌∷◌, ◌++◌, bytes, length, decimal, join_with,
  if◌then◌else◌,
}

-- One check's outcome (the struct Result).
pub record Outcome : Type 0 where
  pub check : Bytes
  pub passed : Bool
  pub output : Bytes
  pub duration : ℕ
  pub note : Bytes

pub record Report : Type 0 where
  pub results : List Outcome

abbrev pub empty_report : Report
empty_report = record { results = [] }

unfoldable pub all_passed_in : List Outcome → Bool
all_passed_in [] = true
all_passed_in (r ∷ rs) = if r.passed then all_passed_in rs else false

unfoldable pub all_passed : Report → Bool
unfolding all_passed_in
all_passed r = all_passed_in r.results

unfoldable pub failed_checks : List Outcome → List Bytes
failed_checks [] = []
failed_checks (r ∷ rs) = let rest = failed_checks rs in if r.passed then rest else r.check ∷ rest

summary_line : List Bytes → ℕ → Bytes
unfolding bytes decimal join_with
summary_line [] total = bytes "all " ++ (decimal total ++ bytes " checks passed")
summary_line (f ∷ fs) total =
    decimal (length (f ∷ fs))
    ++ (bytes " of "
        ++ (decimal total ++ (bytes " checks failed: " ++ join_with (bytes ", ") (f ∷ fs))))

unfoldable pub summary : Report → Bytes
unfolding summary_line failed_checks
summary r = summary_line (failed_checks r.results) (length r.results)
