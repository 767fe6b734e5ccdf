-- ===== src/Examples/Checkouts.antt =====
-- The theorems about the workspaces, over checkouts that a toy of git keeps: it tells the commands of
-- the manager apart by the number of their arguments.
use rojo.Base.{
  Bytes, Bool, true, false, List, [], ◌∷◌, none, some, ◌≡◌, refl, All, bytes, bytes_eq, is_abs,
  bytes_eq_self, if◌then◌else◌,
}
use rojo.Errors.{ok}
use rojo.Execution.{no_result}
use rojo.Workspaces.{
  Manager, git_args, run_git, validate_repo_path, workspace_at, create_workspace, cleanup_workspace,
  diff_workspace, add_worktree, remove_worktree, delete_branch, deletion_error,
}
use rojo.Workspaces.Orphans.{list_orphans, listing}
use rojo.Workspaces.Gone.{IsGit, cleanup-reclaims}
use rojo.Workspaces.Hardened.{manager-IsHardened}
use rojo.Workspaces.Orphans.{all_directories, list_orphans-takes_all}

record Checkouts : Type 0 where
  dirs : Bytes → Bool
  registered : Bytes → Bool
  branches : Bytes → Bool

abbrev cleared : Bytes → (Bytes → Bool) → Bytes → Bool
cleared p f q = if bytes_eq p q then false else f q

abbrev with_one : Bytes → (Bytes → Bool) → Bytes → Bool
with_one p f q = if bytes_eq p q then true else f q

abbrev toy : List Bytes → Checkouts → Checkouts
toy (a ∷ b ∷ []) c = record c { registered = λ p. if c.dirs p then c.registered p else false }
toy (a ∷ b ∷ n ∷ []) c = record c { branches = cleared n c.branches }
toy (a ∷ b ∷ f ∷ p ∷ []) c = record c {
  dirs = cleared p c.dirs;
  registered = cleared p c.registered;
}
toy (a ∷ b ∷ f ∷ n ∷ p ∷ []) c = record c {
  dirs = with_one p c.dirs;
  registered = with_one p c.registered;
  branches = with_one n c.branches;
}
toy args c = c

abbrev behind_flags : List Bytes → List Bytes
behind_flags (a ∷ b ∷ c ∷ d ∷ args) = args
behind_flags args = args

abbrev manager : Manager Checkouts
unfolding bytes
manager = record {
  runner = λ dir command args w. ((no_result, none), toy (behind_flags args) w);
  base_dir = bytes "/b";
  stat = λ p w. ok true;
  mkdir_all = λ p w. (none, w);
  remove_all = λ p w. (none, record w { dirs = cleared p w.dirs });
  read_dir = λ p w. ok ((bytes "a", true) ∷ []);
  eval_symlinks = λ p w. ok p;
}

cleared_self : (p : Bytes) (f : Bytes → Bool) → cleared p f p ≡ false
cleared_self p f = rw (bytes_eq_self p) refl

manager-IsGit :
    IsGit manager (λ p c. c.dirs p) (λ repo p c. c.registered p) (λ repo b c. c.branches b)
unfolding run_git git_args
manager-IsGit = record {
  removes = λ repo p w h. (cleared_self p w.dirs, cleared_self p w.registered);
  remove_all = λ p w h. cleared_self p w.dirs;
  prunes = λ repo p w h k. (k, rw k refl);
  deletes = λ repo b w h. cleared_self b w.branches;
  deletion_keeps = λ repo b p w h k. (h, k);
}

abbrev empty : Checkouts
empty = record { dirs = λ p. false; registered = λ p. false; branches = λ b. false }

abbrev cleaned : Checkouts
unfolding bytes
cleaned =
    (cleanup_workspace manager (some (workspace_at manager (bytes "j") (bytes "/r")))
      (create_workspace manager (bytes "j") (bytes "/r") empty).1).1

cleanup-reclaims_example :
    (cleaned.dirs (workspace_at manager (bytes "j") (bytes "/r")).path ≡ false)
    × (cleaned.registered (workspace_at manager (bytes "j") (bytes "/r")).path ≡ false)
    × (cleaned.branches (workspace_at manager (bytes "j") (bytes "/r")).branch ≡ false)
unfolding create_workspace cleanup_workspace run_git git_args validate_repo_path is_abs add_worktree
    remove_worktree delete_branch deletion_error
cleanup-reclaims_example =
    cleanup-reclaims manager (λ p c. c.dirs p) (λ repo p c. c.registered p)
      (λ repo b c. c.branches b) manager-IsGit (bytes "j") (bytes "/r") empty
      (workspace_at manager (bytes "j") (bytes "/r")) refl
      (create_workspace manager (bytes "j") (bytes "/r") empty).1 refl

list_orphans-takes_all_example : list_orphans manager (bytes "/r") empty ≡ (
  ok (all_directories manager.base_dir ((bytes "a", true) ∷ [])),
  (run_git manager (bytes "/r") listing empty).1,
)
unfolding run_git validate_repo_path is_abs bytes
list_orphans-takes_all_example =
    list_orphans-takes_all manager (bytes "/r") empty ((bytes "a", true) ∷ []) refl refl refl refl

-- A world that is the list of the commands that ran.
abbrev logged : Manager (List (List Bytes))
unfolding bytes
logged = record {
  runner = λ dir command args w. ((no_result, none), args ∷ w);
  base_dir = bytes "/b";
  stat = λ p w. ok true;
  mkdir_all = λ p w. (none, w);
  remove_all = λ p w. (none, w);
  read_dir = λ p w. ok [];
  eval_symlinks = λ p w. ok p;
}

-- Each command that ran had the flags.
abbrev AllHardened : List (List Bytes) → Type 0
AllHardened = All (λ args. (rest : List Bytes) × (args ≡ git_args rest))

manager-IsHardened_example :
    AllHardened (create_workspace logged (bytes "j") (bytes "/r") []).1
    × AllHardened
        (cleanup_workspace logged (some (workspace_at logged (bytes "j") (bytes "/r"))) []).1
    × AllHardened (diff_workspace logged (some (workspace_at logged (bytes "j") (bytes "/r"))) []).1
    × AllHardened (list_orphans logged (bytes "/r") []).1
unfolding bytes
manager-IsHardened_example =
    manager-IsHardened logged AllHardened (λ dir args w h. ((args, refl), h)) (λ w h. h) (bytes "j")
      (bytes "/r") (workspace_at logged (bytes "j") (bytes "/r")) (λ w h. h) [] tt
