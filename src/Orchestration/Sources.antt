-- ===== src/Orchestration/Sources.antt =====
-- internal/orchestration/sources.go and retry.go: the sources that are shown to the model, and the loop
-- over revisions.
pub mod Bounded
use rojo.Base.{
  ℕ, ◌+◌, zero, suc, Bytes, Bool, true, false, ◌||◌, List, [], ◌∷◌, ◌++◌, Option, none, some, bytes,
  contains, is_abs, join_path, clean, leb, length, ltb, if◌then◌else◌,
}
use rojo.Errors.{Error, sentinel, max_revisions_exceeded, Result, ok, err}
use rojo.Agents.Types.{
  SourceFile, Review, Decision, approve, reject, request_changes, other_decision,
}

abbrev pub max_source_files : ℕ
max_source_files = 40

abbrev pub max_source_file_bytes : ℕ
max_source_file_bytes = 65536

abbrev pub max_source_total_bytes : ℕ
max_source_total_bytes = 393216

-- What os.Stat finds of a path: a directory or a file of some size, or an error.
pub data Found : Type 0 where
  missing directory : Found
  file : ℕ → Found

-- The worktree as it is read: os.Stat, and os.ReadFile, which may fail still.
pub record Worktree : Type 0 where
  pub stat : Bytes → Found
  pub read_file : Bytes → Result Bytes

-- The body of the loop for one path: the file, if it is taken.
unfoldable pub read_found : Worktree → Bytes → Bytes → Found → Option SourceFile
read_found t rel full missing = none
read_found t rel full directory = none
read_found t rel full (file size) =
    if ltb max_source_file_bytes size then none else elim (t.read_file full) [
      | err e ↦ none
      | ok content ↦ some (record { path = rel; content = content })
    ]

unfoldable pub read_source : Worktree → Bytes → Bytes → Option SourceFile
unfolding bytes
read_source t worktree rel =
    if is_abs rel || contains rel (bytes "..")
    then none
    else let full = join_path worktree (clean rel) in read_found t rel full (t.stat full)

-- The loop of readSources, on the files so far and their bytes.
unfoldable pub read_more : Worktree → Bytes → List Bytes → List SourceFile → ℕ → List SourceFile
read_more t worktree [] out total = out
read_more t worktree (rel ∷ paths) out total =
    if leb max_source_files (length out) || leb max_source_total_bytes total
    then out
    else elim (read_source t worktree rel) [
      | none ↦ read_more t worktree paths out total
      | some s ↦ read_more t worktree paths (out ++ s ∷ []) (total + length s.content)
    ]

unfoldable pub read_sources : Worktree → Bytes → List Bytes → List SourceFile
unfolding read_more
read_sources t worktree paths = read_more t worktree paths [] 0

-- RunWithRevisionLoop, with the rounds that are left; the source starts with MaxRevisions + 1.
module _ {W : Type 0} (attempt : Bytes → W → Result Review × W) where
  unfoldable pub revision_rounds : ℕ → Bytes → W → Result Review × W
  revision_rounds zero feedback w = (err (sentinel max_revisions_exceeded), w)
  revision_rounds (suc n) feedback w =
      let (answer, w1) = attempt feedback w in
      elim answer [
        | err e ↦ (err e, w1)
        | ok r ↦ elim r.decision [
          | approve ↦ (ok r, w1)
          | reject ↦ (ok r, w1)
          | _ ↦ revision_rounds n r.notes w1
        ]
      ]

  unfoldable pub run_with_revision_loop : W → Result Review × W
  unfolding revision_rounds
  run_with_revision_loop w = revision_rounds 2 [] w
