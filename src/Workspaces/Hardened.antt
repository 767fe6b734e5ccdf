-- ===== src/Workspaces/Hardened.antt =====
-- About internal/workspace: the commands that the manager runs.
use rojo.Base.{Bytes, Bool-cases, List, [], ◌∷◌, some, inl, inr, found, bytes}
use rojo.Orchestration.Candidate.{Workspace}
use rojo.Workspaces.{
  Manager, git, git_args, run_git, ran, validate_repo_path, add_worktree, create_workspace,
  remove_by_hand, remove_worktree, delete_branch, cleanup_workspace, command_error, diff_head,
  diff_workspace,
}
use rojo.Workspaces.Orphans.{list_orphans}

module _ {W : Type 0} (m : Manager W) (P : W → Type 0)
    (git_keeps : (dir : Bytes) (args : List Bytes) (w : W)
      → P w
      → P (m.runner dir git (git_args args) w).1) where
  run-keeps : (dir : Bytes) (args : List Bytes) (w : W) → P w → P (run_git m dir args w).1
  unfolding run_git
  run-keeps = git_keeps

  create-keeps :
      ((w : W) → P w → P (m.mkdir_all m.base_dir w).1)
      → (id repo : Bytes) (w : W) → P w
      → P (create_workspace m id repo w).1
  unfolding create_workspace add_worktree
  create-keeps mkdir_keeps id repo w h = elim (found (validate_repo_path m repo w)) [
    | inr (e, x) ↦ rw (create_workspace, x) h
    | inl x ↦ elim (found (m.mkdir_all m.base_dir w).0) [
      | inr (e, y) ↦ rw (create_workspace, x, y) (mkdir_keeps w h)
      | inl y ↦ rw (create_workspace, x, y) (run-keeps _ _ _ (mkdir_keeps w h))
    ]
  ]

  remove-keeps :
      (ws : Workspace)
      → ((w : W) → P w → P (m.remove_all ws.path w).1)
      → (w : W) → P w
      → P (remove_worktree m ws w).1
  unfolding remove_worktree remove_by_hand
  remove-keeps ws remove_keeps w h =
      let removal = bytes "worktree" ∷ bytes "remove" ∷ bytes "--force" ∷ ws.path ∷ [] in
      let answer = run_git m ws.repo_path removal w in
      elim (Bool-cases (ran answer.0)) [
        | inl e ↦ rw e (run-keeps _ _ _ h)
        | inr e ↦ rw e (run-keeps _ _ _ (remove_keeps _ (run-keeps _ _ _ h)))
      ]

  cleanup-keeps :
      (ws : Workspace)
      → ((w : W) → P w → P (m.remove_all ws.path w).1)
      → (w : W) → P w
      → P (cleanup_workspace m (some ws) w).1
  unfolding cleanup_workspace delete_branch
  cleanup-keeps ws remove_keeps w h = run-keeps _ _ _ (remove-keeps ws remove_keeps w h)

  diff-keeps : (ws : Workspace) (w : W) → P w → P (diff_workspace m (some ws) w).1
  unfolding diff_workspace diff_head
  diff-keeps ws w h =
      let answer =
        run_git m ws.path (bytes "add" ∷ bytes "--intent-to-add" ∷ bytes "--all" ∷ []) w in
      elim (found (command_error m (bytes "git add --intent-to-add") answer.0)) [
        | inr (e, x) ↦ rw (diff_workspace, x) (run-keeps _ _ _ h)
        | inl x ↦ rw (diff_workspace, x) (run-keeps _ _ _ (run-keeps _ _ _ h))
      ]

  list-keeps : (repo : Bytes) (w : W) → P w → P (list_orphans m repo w).1
  unfolding list_orphans
  list-keeps repo w h = elim (found (validate_repo_path m repo w)) [
    | inr (e, x) ↦ rw (list_orphans, x) h
    | inl x ↦ rw (list_orphans, x) (run-keeps _ _ _ h)
  ]

  -- Whatever is kept by every git command behind the arguments that switch off hooks and the file
  -- monitor, by the making of the base directory, and by the removal of the workspace's own directory,
  -- is kept by Create, Cleanup, Diff and ListOrphans: they run and remove nothing else.
  pub manager-IsHardened :
      ((w : W) → P w → P (m.mkdir_all m.base_dir w).1)
      → (id repo : Bytes) (ws : Workspace) → ((w : W) → P w → P (m.remove_all ws.path w).1)
      → (w : W) → P w
      → P (create_workspace m id repo w).1
        × P (cleanup_workspace m (some ws) w).1
        × P (diff_workspace m (some ws) w).1
        × P (list_orphans m repo w).1
  manager-IsHardened mkdir_keeps id repo ws remove_keeps w h = (
    create-keeps mkdir_keeps id repo w h,
    cleanup-keeps ws remove_keeps w h,
    diff-keeps ws w h,
    list-keeps repo w h,
  )
