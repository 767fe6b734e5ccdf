-- ===== src/Workspaces/Orphans.antt =====
-- ListOrphans of internal/workspace/diff.go, and what it answers where git failed.
use rojo.Base.{
  Bytes, Bool, true, false, not, ◌&&◌, List, [], ◌∷◌, Option, none, some, any, bytes, bytes_eq,
  has_prefix, join_path, split, trim_prefix, if◌then◌else◌, ◌≡◌, refl, ap,
}
use rojo.Errors.{Error, wrap, error_is, not_exist, Result, ok, err}
use rojo.Execution.{CommandResult}
use rojo.Workspaces.{Manager, validate_repo_path, run_git}

-- The arguments of ListOrphans.
abbrev pub listing : List Bytes
unfolding bytes
listing = bytes "worktree" ∷ bytes "list" ∷ bytes "--porcelain" ∷ []

module _ {W : Type 0} (m : Manager W) where
  -- realPath
  unfoldable pub real_path : Bytes → W → Bytes
  real_path p w = elim (m.eval_symlinks p w) [ err e ↦ p | ok q ↦ q ]

  -- The worktrees that git lists, by their real paths.
  unfoldable pub listed_worktrees : List Bytes → W → List Bytes
  unfolding bytes
  listed_worktrees [] w = []
  listed_worktrees (line ∷ lines) w =
      let rest = listed_worktrees lines w in
      if has_prefix line (bytes "worktree ")
      then real_path (trim_prefix line (bytes "worktree ")) w ∷ rest
      else rest

  unfoldable pub orphans_among : List Bytes → List (Bytes × Bool) → W → List Bytes
  orphans_among tracked [] w = []
  orphans_among tracked ((name, is_dir) ∷ es) w =
      let rest = orphans_among tracked es w in
      let path = join_path m.base_dir name in
      if is_dir && not (any (bytes_eq (real_path path w)) tracked) then path ∷ rest else rest

  -- The answer of ListOrphans over what git printed. The exit code is not read.
  unfoldable pub orphans_of : Bytes → W → Result (List Bytes)
  unfolding bytes split
  orphans_of stdout w =
      let tracked = listed_worktrees (split 10 stdout) w in
      elim (m.read_dir m.base_dir w) [
        | err e ↦ if error_is not_exist e then ok [] else err (wrap (bytes "read base dir: ") e [])
        | ok entries ↦ ok (orphans_among tracked entries w)
      ]

  unfoldable pub orphans_from : CommandResult × Option Error → W → Result (List Bytes)
  unfolding bytes
  orphans_from (r, some e) w = err (wrap (bytes "git worktree list: ") e [])
  orphans_from (r, none) w = orphans_of r.stdout w

  -- ListOrphans
  unfoldable pub list_orphans : Bytes → W → Result (List Bytes) × W
  unfolding bytes
  list_orphans repo w = elim (validate_repo_path m repo w) [
    | some e ↦ (err e, w)
    | none ↦ let (answer, w1) = run_git m repo listing w in (orphans_from answer w1, w1)
  ]

-- The directories of a listing, under their paths below the base directory.
abbrev pub all_directories : Bytes → List (Bytes × Bool) → List Bytes
all_directories base [] = []
all_directories base ((name, true) ∷ es) = join_path base name ∷ all_directories base es
all_directories base ((name, false) ∷ es) = all_directories base es

module _ {W : Type 0} (m : Manager W) where
  untracked :
      (es : List (Bytes × Bool)) (w : W) → orphans_among m [] es w ≡ all_directories m.base_dir es
  unfolding orphans_among
  untracked [] w = refl
  untracked ((name, true) ∷ es) w = rw (untracked es w) refl
  untracked ((name, false) ∷ es) w = untracked es w

  takes_all :
      (w : W) (es : List (Bytes × Bool))
      → m.read_dir m.base_dir w ≡ ok es
      → orphans_of m [] w ≡ ok (all_directories m.base_dir es)
  unfolding orphans_of listed_worktrees split has_prefix
  takes_all w es read = rw (orphans_of, read) (ap ok (untracked es w))

  -- Where git runs and prints nothing, as where it fails with an exit code, ListOrphans answers every
  -- directory of the base directory as an orphan, whatever the exit code.
  pub list_orphans-takes_all :
      (repo : Bytes) (w : W) (es : List (Bytes × Bool))
      → validate_repo_path m repo w ≡ none
      → (run_git m repo listing w).0.1 ≡ none
      → (run_git m repo listing w).0.0.stdout ≡ []
      → m.read_dir m.base_dir (run_git m repo listing w).1 ≡ ok es
      → list_orphans m repo w ≡ (ok (all_directories m.base_dir es), (run_git m repo listing w).1)
  unfolding list_orphans orphans_from
  list_orphans-takes_all repo w es valid went empty read =
      rw (list_orphans, valid, orphans_from, went, empty)
        (ap (λ r. (r, (run_git m repo listing w).1))
          (takes_all (run_git m repo listing w).1 es read))
