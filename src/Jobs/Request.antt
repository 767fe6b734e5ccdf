-- ===== src/Jobs/Request.antt =====
-- internal/jobs/request.go: what a submitted job has to look like.
pub mod Accepted
use rojo.Base.{
  ℕ, zero, suc, ◌-◌, Bytes, Bool, true, false, ◌&&◌, ◌||◌, List, [], ◌∷◌, Option, none, some, bytes,
  length, leb, ltb, ◌==◌, is_empty, has_prefix, is_abs, contains_byte, trim_space, if◌then◌else◌,
}
use rojo.Errors.{Error, plain}

abbrev pub max_task_length : ℕ
max_task_length = 4000

abbrev pub min_task_length : ℕ
min_task_length = 4

abbrev pub max_repo_path_length : ℕ
max_repo_path_length = 4096

pub record NewJobRequest : Type 0 where
  pub task : Bytes
  pub repo_path : Bytes

abbrev within : ℕ → ℕ → ℕ → Bool
within lo hi b = leb lo b && leb b hi

abbrev continues : ℕ → Bool
continues = within 0x80 0xbf

-- How many bytes the rune at the head of a text takes; a byte that begins no valid rune counts as
-- one.
unfoldable pub rune_width : Bytes → ℕ
rune_width (a ∷ b ∷ []) = if within 0xc2 0xdf a && continues b then 2 else 1
rune_width (a ∷ b ∷ c ∷ []) =
    if within 0xc2 0xdf a && continues b
    then 2
    else if (a == 0xe0 && within 0xa0 0xbf b
          || (a == 0xed && within 0x80 0x9f b
              || (within 0xe1 0xec a || within 0xee 0xef a) && continues b))
        && continues c
    then 3
    else 1
rune_width (a ∷ b ∷ c ∷ d ∷ s) =
    if within 0xc2 0xdf a && continues b
    then 2
    else if (a == 0xe0 && within 0xa0 0xbf b
          || (a == 0xed && within 0x80 0x9f b
              || (within 0xe1 0xec a || within 0xee 0xef a) && continues b))
        && continues c
    then 3
    else if (a == 0xf0 && within 0x90 0xbf b
          || (a == 0xf4 && within 0x80 0x8f b || within 0xf1 0xf3 a && continues b))
        && (continues c && continues d)
    then 4
    else 1
rune_width _ = 1

-- The runes of a text, `skip` bytes into which the rune before it reaches.
unfoldable pub runes_behind : ℕ → Bytes → ℕ
unfolding rune_width
runes_behind skip [] = 0
runes_behind zero (b ∷ s) = suc (runes_behind (rune_width (b ∷ s) - 1) s)
runes_behind (suc skip) (b ∷ s) = runes_behind skip s

-- utf8.RuneCountInString
unfoldable pub rune_count : Bytes → ℕ
unfolding runes_behind
rune_count s = runes_behind 0 s

unfoldable pub normalize : NewJobRequest → NewJobRequest
normalize r = record { task = trim_space r.task; repo_path = trim_space r.repo_path }

-- The checks of Validate, on the normalized request.
unfoldable pub check_request : NewJobRequest → Option Error
unfolding bytes
check_request r =
    if is_empty r.task
    then some (plain (bytes "task is required"))
    else if contains_byte 0 r.task || contains_byte 0 r.repo_path
    then some (plain (bytes "field contains a NUL byte"))
    else if ltb (rune_count r.task) min_task_length
    then some (plain (bytes "task is too short"))
    else if ltb max_task_length (rune_count r.task)
    then some (plain (bytes "task exceeds maximum length"))
    else if is_empty r.repo_path
    then some (plain (bytes "repo_path is required"))
    else if ltb max_repo_path_length (length r.repo_path)
    then some (plain (bytes "repo_path exceeds maximum length"))
    else if is_abs r.repo_path
    then none
    else some (plain (bytes "repo_path must be an absolute path"))

-- Validate: the request comes back changed, with the error.
unfoldable pub validate : NewJobRequest → Option Error × NewJobRequest
validate r = (check_request (normalize r), normalize r)
