-- ===== src/Workspaces.antt =====
-- internal/workspace: git.go, diff.go, and the checks of manager.go. The checkouts of the jobs, over a
-- runner of commands and operations of the package os. The lock round the first command of Create is
-- left out, and so is the context, whose deadline the runner sees.
pub mod Hardened
pub mod Gone
pub mod Orphans
use rojo.Base.{
  ℕ, Bytes, Bool, true, false, not, ◌&&◌, List, [], ◌∷◌, ◌++◌, Option, none, some, any, bytes,
  bytes_eq, decimal, has_prefix, is_abs, is_some, join_path, split, trim_prefix, ◌==◌,
  if◌then◌else◌,
}
use rojo.Errors.{
  Error, sentinel, plain, wrap, join, error_is, not_exist, repo_not_found, not_a_git_repo,
  path_traversal, worktree_not_found, Result, ok, err,
}
use rojo.Execution.{CommandRunner, CommandResult, ExitCode, exited, killed}
use rojo.Orchestration.Candidate.{Workspace}

-- gitArgs and SafeGitArgs
unfoldable pub git_args : List Bytes → List Bytes
unfolding bytes
git_args args =
    bytes "-c" ∷ bytes "core.hooksPath=/dev/null" ∷ bytes "-c" ∷ bytes "core.fsmonitor=false" ∷ args

abbrev pub git : Bytes
unfolding bytes
git = bytes "git"

unfoldable pub branch_of : Bytes → Bytes
unfolding bytes
branch_of id = bytes "rojo/job/" ++ id

-- %d of an exit code.
unfoldable pub exit_text : ExitCode → Bytes
unfolding decimal bytes
exit_text (exited n) = decimal n
exit_text killed = bytes "-1"

abbrev pub succeeded : CommandResult → Bool
succeeded r = elim r.exit_code [ exited n ↦ n == 0 | killed ↦ false ]

-- Whether a command ran and exited with 0.
abbrev pub ran : CommandResult × Option Error → Bool
ran (r, none) = succeeded r
ran (r, some e) = false

-- The error of a command that ran: none, where it exited with 0.
unfoldable pub exit_error : Bytes → CommandResult → Option Error
unfolding exit_text bytes
exit_error what r =
    if succeeded r
    then none
    else some
        (plain (what ++ (bytes " exited " ++ (exit_text r.exit_code ++ (bytes ": " ++ r.stderr)))))

-- What a GitWorkspaceManager stands on: its runner and base directory, os.Stat, which tells whether
-- there is a directory, os.MkdirAll, os.RemoveAll, os.ReadDir, with a mark at each directory, and
-- filepath.EvalSymlinks.
pub record Manager (W : Type 0) : Type 0 where
  pub runner : CommandRunner W
  pub base_dir : Bytes
  pub stat : Bytes → W → Result Bool
  pub mkdir_all : Bytes → W → Option Error × W
  pub remove_all : Bytes → W → Option Error × W
  pub read_dir : Bytes → W → Result (List (Bytes × Bool))
  pub eval_symlinks : Bytes → W → Result Bytes

abbrev pub answers : {A : Type 0} → Option Error → A → Result A
answers none a = ok a
answers (some e) a = err e

module _ {W : Type 0} (m : Manager W) where
  -- A git command in a directory.
  unfoldable pub run_git : Bytes → List Bytes → W → (CommandResult × Option Error) × W
  unfolding git_args
  run_git dir args w = m.runner dir git (git_args args) w

  -- Workspace.Reconstruct at the manager's base directory.
  unfoldable pub workspace_at : Bytes → Bytes → Workspace
  unfolding branch_of
  workspace_at id repo_path = record {
    job_id = id;
    branch = branch_of id;
    path = join_path m.base_dir id;
    repo_path = repo_path;
  }

  -- validateRepoPath
  unfoldable pub validate_repo_path : Bytes → W → Option Error
  unfolding bytes
  validate_repo_path repo w =
      if not (is_abs repo)
      then some (wrap [] (sentinel path_traversal) (bytes ": " ++ repo))
      else elim (m.stat repo w) [
        | err e ↦ some (
            if error_is not_exist e
            then wrap [] (sentinel repo_not_found) (bytes ": " ++ repo)
            else e)
        | ok false ↦ some (wrap [] (sentinel repo_not_found) (bytes ": not a directory"))
        | ok true ↦ elim (m.stat (join_path repo (bytes ".git")) w) [
          | err e ↦ some (wrap [] (sentinel not_a_git_repo) (bytes ": " ++ repo))
          | ok d ↦ none
        ]
      ]

  -- The error of a git command whose answer is needed: of the runner, or of the exit code.
  unfoldable pub command_error : Bytes → CommandResult × Option Error → Option Error
  unfolding exit_error bytes
  command_error what (r, none) = exit_error what r
  command_error what (r, some e) = some (wrap (what ++ bytes ": ") e (bytes ": " ++ r.stderr))

  -- The checkout, for a repository that was accepted and with a base directory.
  unfoldable pub add_worktree : Bytes → Bytes → W → Result Workspace × W
  unfolding bytes command_error workspace_at branch_of
  add_worktree id repo w =
      let ws = workspace_at id repo in
      let (answer, w1) =
        run_git repo (bytes "worktree" ∷ bytes "add" ∷ bytes "-b" ∷ ws.branch ∷ ws.path ∷ []) w in
      (answers (command_error (bytes "git worktree add") answer) ws, w1)

  -- Create
  unfoldable pub create_workspace : Bytes → Bytes → W → Result Workspace × W
  unfolding bytes
  create_workspace id repo w = elim (validate_repo_path repo w) [
    | some e ↦ (err e, w)
    | none ↦
        let (problem, w1) = m.mkdir_all m.base_dir w in
        elim problem [
          | some e ↦ (err (wrap (bytes "create base dir: ") e []), w1)
          | none ↦ add_worktree id repo w1
        ]
  ]

  -- The errors of Cleanup so far, and one more.
  abbrev pub also : Option Error → Option Error → Option Error
  also none f = f
  also (some e) none = some e
  also (some e) (some f) = some (join e f)

  -- The error of a command of Cleanup; the text of stderr is only in that of an exit code.
  unfoldable pub cleanup_error : Bytes → Bytes → CommandResult × Option Error → Option Error
  unfolding exit_error bytes
  cleanup_error failed exits (r, none) = exit_error exits r
  cleanup_error failed exits (r, some e) = some (wrap (failed ++ bytes ": ") e [])

  -- The error of os.RemoveAll.
  unfoldable pub removal_error : Bytes → Option Error → Option Error
  unfolding bytes
  removal_error path none = none
  removal_error path (some e) =
      some (wrap (bytes "remove worktree dir " ++ (path ++ bytes ": ")) e [])

  unfoldable pub pruning_error : CommandResult × Option Error → Option Error
  unfolding bytes cleanup_error
  pruning_error = cleanup_error (bytes "prune worktrees") (bytes "git worktree prune")

  unfoldable pub deletion_error : Bytes → CommandResult × Option Error → Option Error
  unfolding bytes cleanup_error
  deletion_error branch =
      cleanup_error (bytes "delete branch " ++ branch) (bytes "delete branch " ++ branch)

  -- What Cleanup does where git did not remove the worktree.
  unfoldable pub remove_by_hand : Workspace → W → Option Error × W
  unfolding bytes
  remove_by_hand ws w =
      let (problem, w1) = m.remove_all ws.path w in
      let (answer, w2) = run_git ws.repo_path (bytes "worktree" ∷ bytes "prune" ∷ []) w1 in
      (also (removal_error ws.path problem) (pruning_error answer), w2)

  unfoldable pub remove_worktree : Workspace → W → Option Error × W
  unfolding bytes
  remove_worktree ws w =
      let (answer, w1) =
        run_git ws.repo_path (bytes "worktree" ∷ bytes "remove" ∷ bytes "--force" ∷ ws.path ∷ [])
          w in
      if ran answer then (none, w1) else remove_by_hand ws w1

  unfoldable pub delete_branch : Workspace → W → Option Error × W
  unfolding bytes
  delete_branch ws w =
      let (answer, w1) = run_git ws.repo_path (bytes "branch" ∷ bytes "-D" ∷ ws.branch ∷ []) w in
      (deletion_error ws.branch answer, w1)

  -- Cleanup
  unfoldable pub cleanup_workspace : Option Workspace → W → Option Error × W
  cleanup_workspace none w = (none, w)
  cleanup_workspace (some ws) w =
      let (e, w1) = remove_worktree ws w in let (f, w2) = delete_branch ws w1 in (also e f, w2)

  -- Diff, from the index that knows the new files on.
  unfoldable pub diff_head : Workspace → W → Result Bytes × W
  unfolding bytes command_error
  diff_head ws w =
      let (answer, w1) = run_git ws.path (bytes "diff" ∷ bytes "HEAD" ∷ []) w in
      (answers (command_error (bytes "git diff") answer) (answer.0).stdout, w1)

  -- Diff
  unfoldable pub diff_workspace : Option Workspace → W → Result Bytes × W
  unfolding bytes command_error
  diff_workspace none w = (err (sentinel worktree_not_found), w)
  diff_workspace (some ws) w =
      let (answer, w1) =
        run_git ws.path (bytes "add" ∷ bytes "--intent-to-add" ∷ bytes "--all" ∷ []) w in
      elim (command_error (bytes "git add --intent-to-add") answer) [
        | some e ↦ (err e, w1)
        | none ↦ diff_head ws w1
      ]
