-- ===== src/Jobs/Request/Accepted.antt =====
-- About internal/jobs/request.go: which requests pass.
use rojo.Base.{
  is_abs, ℕ, zero, suc, ◌-◌, ◌≤◌, Bytes, true, false, [], ◌∷◌, none, ◌≡◌, refl, ◌↔◌, arith, length,
  is_empty, contains_byte, trim_space,
}
use rojo.Jobs.Request.{
  NewJobRequest, rune_width, runes_behind, rune_count, normalize, check_request, validate,
  max_task_length, min_task_length, max_repo_path_length,
}

runes_behind-le : (skip : ℕ) (s : Bytes) → runes_behind skip s ≤ length s
unfolding runes_behind
runes_behind-le skip [] = omega arith
runes_behind-le zero (b ∷ s) = omega (arith, runes_behind-le (rune_width (b ∷ s) - 1) s)
runes_behind-le (suc skip) (b ∷ s) = omega (arith, runes_behind-le skip s)

-- What a stored job may look like.
pub record IsAcceptable (r : NewJobRequest) : Type 0 where
  pub long_enough : min_task_length ≤ rune_count r.task
  pub short_enough : rune_count r.task ≤ max_task_length
  pub path_short : length r.repo_path ≤ max_repo_path_length
  pub absolute : is_abs r.repo_path ≡ true
  pub task_clean : contains_byte 0 r.task ≡ false
  pub path_clean : contains_byte 0 r.repo_path ≡ false

rune_count-nil : rune_count [] ≡ 0
unfolding rune_count
rune_count-nil = refl

task_ne_nil : (s : Bytes) → min_task_length ≤ rune_count s → is_empty s ≡ false
task_ne_nil [] h = absurd (omega (arith, rune_count-nil))
task_ne_nil (b ∷ s) h = refl

path_ne_nil : (s : Bytes) → is_abs s ≡ true → is_empty s ≡ false
unfolding is_abs
path_ne_nil [] h = cc
path_ne_nil (b ∷ s) h = refl

check_request_lem : (r : NewJobRequest) → (check_request r ≡ none) ↔ IsAcceptable r
unfolding check_request
check_request_lem r = (
  λ h. record {
    long_enough = ground arith;
    short_enough = ground arith;
    path_short = ground arith;
    absolute = ground arith;
    task_clean = ground arith;
    path_clean = ground arith;
  },
  λ v. ground (arith, task_ne_nil r.task v.long_enough, path_ne_nil r.repo_path v.absolute),
)

-- Validate accepts a request exactly where, its two fields trimmed, the task has 4 to 4000 runes, the
-- path is absolute and has at most 4096 bytes, and neither holds a NUL byte; and it is the trimmed
-- fields that the caller goes on with. A task never has more runes than bytes.
pub validate_lem :
    (r : NewJobRequest)
    → (((validate r).0 ≡ none) ↔ IsAcceptable (validate r).1)
      × ((validate r).1.task ≡ trim_space r.task)
      × ((validate r).1.repo_path ≡ trim_space r.repo_path)
      × (rune_count (validate r).1.task ≤ length (validate r).1.task)
unfolding validate normalize rune_count
validate_lem r =
    (check_request_lem (normalize r), refl, refl, runes_behind-le 0 (trim_space r.task))
