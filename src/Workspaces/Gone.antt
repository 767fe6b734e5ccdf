-- ===== src/Workspaces/Gone.antt =====
-- About internal/workspace: what Cleanup leaves of a checkout.
use rojo.Base.{
  Bytes, Bool, Bool-cases, true, false, List, [], ◌∷◌, ◌++◌, Option, none, some, ◌≡◌, ◌≢◌, refl,
  inl, inr, arith, found, bytes,
}
use rojo.Errors.{Error, err, ok}
use rojo.Execution.{CommandResult}
use rojo.Orchestration.Candidate.{Workspace}
use rojo.Workspaces.{
  Manager, run_git, ran, exit_error, answers, also, cleanup_error, removal_error, pruning_error,
  deletion_error, validate_repo_path, workspace_at, add_worktree, create_workspace, remove_by_hand,
  remove_worktree, delete_branch, cleanup_workspace,
}

abbrev pub removal : Bytes → List Bytes
unfolding bytes
removal p = bytes "worktree" ∷ bytes "remove" ∷ bytes "--force" ∷ p ∷ []

abbrev pub pruning : List Bytes
unfolding bytes
pruning = bytes "worktree" ∷ bytes "prune" ∷ []

abbrev pub deletion : Bytes → List Bytes
unfolding bytes
deletion b = bytes "branch" ∷ bytes "-D" ∷ b ∷ []

-- What git and os.RemoveAll promise of the directories that are there, the worktrees that a repository
-- has registered, and its branches.
pub record IsGit {W : Type 0} (m : Manager W) (there : Bytes → W → Bool)
    (registered branch : Bytes → Bytes → W → Bool) : Type 0 where
  pub removes :
      (repo p : Bytes) (w : W)
      → ran (run_git m repo (removal p) w).0 ≡ true
      → (there p (run_git m repo (removal p) w).1 ≡ false)
        × (registered repo p (run_git m repo (removal p) w).1 ≡ false)
  pub remove_all :
      (p : Bytes) (w : W) → (m.remove_all p w).0 ≡ none → there p (m.remove_all p w).1 ≡ false
  pub prunes :
      (repo p : Bytes) (w : W)
      → ran (run_git m repo pruning w).0 ≡ true
      → there p w ≡ false
      → (there p (run_git m repo pruning w).1 ≡ false)
        × (registered repo p (run_git m repo pruning w).1 ≡ false)
  pub deletes :
      (repo b : Bytes) (w : W)
      → ran (run_git m repo (deletion b) w).0 ≡ true
      → branch repo b (run_git m repo (deletion b) w).1 ≡ false
  pub deletion_keeps :
      (repo b p : Bytes) (w : W)
      → there p w ≡ false
      → registered repo p w ≡ false
      → (there p (run_git m repo (deletion b) w).1 ≡ false)
        × (registered repo p (run_git m repo (deletion b) w).1 ≡ false)

exit_error-none :
    (what : Bytes) (r : CommandResult) → exit_error what r ≡ none → ran (r, none) ≡ true
unfolding exit_error
exit_error-none what r h = ground arith

module _ {W : Type 0} (m : Manager W) where
  cleanup_error-none :
      (failed exits : Bytes) (answer : CommandResult × Option Error)
      → cleanup_error m failed exits answer ≡ none
      → ran answer ≡ true
  unfolding cleanup_error
  cleanup_error-none failed exits (r, none) h = exit_error-none exits r h
  cleanup_error-none failed exits (r, some e) h = cc

  pruned :
      (answer : CommandResult × Option Error) → pruning_error m answer ≡ none → ran answer ≡ true
  unfolding pruning_error
  pruned answer h =
      cleanup_error-none (bytes "prune worktrees") (bytes "git worktree prune") answer h

  deleted :
      (b : Bytes) (answer : CommandResult × Option Error)
      → deletion_error m b answer ≡ none
      → ran answer ≡ true
  unfolding deletion_error
  deleted b answer h =
      cleanup_error-none (bytes "delete branch " ++ b) (bytes "delete branch " ++ b) answer h

  removal_error-some : (p : Bytes) (e : Error) → removal_error m p (some e) ≢ none
  unfolding removal_error
  removal_error-some p e h = cc

  also-none : (e f : Option Error) → also m e f ≡ none → (e ≡ none) × (f ≡ none)
  also-none none f h = (refl, h)
  also-none (some e) none h = cc
  also-none (some e) (some f) h = cc

  answered : (e : Option Error) (a b : Workspace) → answers e a ≡ ok b → b ≡ a
  answered none a b h = cc
  answered (some e) a b h = cc

  -- What Create returns is what Reconstruct finds again.
  create-is_workspace_at :
      (id repo : Bytes) (w : W) (ws : Workspace)
      → (create_workspace m id repo w).0 ≡ ok ws
      → ws ≡ workspace_at m id repo
  unfolding create_workspace add_worktree
  create-is_workspace_at id repo w ws h = elim (found (validate_repo_path m repo w)) [
    | inr (e, x) ↦ absurd (let c : err e ≡ ok ws = rw (create_workspace, x) at h in cc)
    | inl x ↦ elim (found (m.mkdir_all m.base_dir w).0) [
      | inr (e, y) ↦ absurd (let c : err _ ≡ ok ws = rw (create_workspace, x, y) at h in cc)
      | inl y ↦ answered _ (workspace_at m id repo) ws (
          let c : (add_worktree m id repo (m.mkdir_all m.base_dir w).1).0 ≡ ok ws =
            rw (create_workspace, x, y) at h in
          c)
    ]
  ]

  module _ (there : Bytes → W → Bool) (registered branch : Bytes → Bytes → W → Bool)
      (g : IsGit m there registered branch) where
    by_hand-removes :
        (ws : Workspace) (w : W)
        → (remove_by_hand m ws w).0 ≡ none
        → (there ws.path (remove_by_hand m ws w).1 ≡ false)
          × (registered ws.repo_path ws.path (remove_by_hand m ws w).1 ≡ false)
    unfolding remove_by_hand
    by_hand-removes ws w h = elim (found (m.remove_all ws.path w).0) [
      | inr (e, x) ↦ absurd (
          removal_error-some ws.path e (
            let k : removal_error m ws.path (m.remove_all ws.path w).0 ≡ none =
              (also-none _ _ h).0 in
            rw x at k))
      | inl x ↦
          let (k, l) = also-none _ _ h in
          g.prunes ws.repo_path ws.path (m.remove_all ws.path w).1 (pruned _ l)
            (g.remove_all ws.path w x)
    ]

    removes :
        (ws : Workspace) (w : W)
        → (remove_worktree m ws w).0 ≡ none
        → (there ws.path (remove_worktree m ws w).1 ≡ false)
          × (registered ws.repo_path ws.path (remove_worktree m ws w).1 ≡ false)
    unfolding remove_worktree
    removes ws w h = elim (Bool-cases (ran (run_git m ws.repo_path (removal ws.path) w).0)) [
      | inl e ↦ rw e (g.removes ws.repo_path ws.path w e)
      | inr e ↦ rw e (by_hand-removes ws _ (rw e at h))
    ]

    -- Where Cleanup of the workspace that Reconstruct finds reports no error, whenever it runs, nothing
    -- is left of the workspace that Create made: no directory, no registered worktree and no branch.
    pub cleanup-reclaims :
        (id repo : Bytes) (w : W) (ws : Workspace)
        → (create_workspace m id repo w).0 ≡ ok ws
        → (w' : W) → (cleanup_workspace m (some (workspace_at m id repo)) w').0 ≡ none
        → (there ws.path (cleanup_workspace m (some (workspace_at m id repo)) w').1 ≡ false)
          × (registered ws.repo_path ws.path
                (cleanup_workspace m (some (workspace_at m id repo)) w').1
              ≡ false)
          × (branch ws.repo_path ws.branch
                (cleanup_workspace m (some (workspace_at m id repo)) w').1
              ≡ false)
    unfolding cleanup_workspace delete_branch
    cleanup-reclaims id repo w ws made w' h =
        let it = workspace_at m id repo in
        let (e, f) = also-none _ _ h in
        let (a, b) = removes it w' e in
        let (c, d) = g.deletion_keeps it.repo_path it.branch it.path _ a b in
        rw (create-is_workspace_at id repo w ws made)
          (c, d, g.deletes it.repo_path it.branch _ (deleted it.branch _ f))
