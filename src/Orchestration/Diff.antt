-- ===== src/Orchestration/Diff.antt =====
-- internal/orchestration/artifacts.go: the paths that a unified diff touches.
use rojo.Base.{
  Bytes, List, [], ◌∷◌, ◌++◌, bytes, bytes_eq, is_empty, has_prefix, trim_prefix, trim_space, split,
  not, ◌&&◌, any, if◌then◌else◌,
}

unfoldable pub trim_diff_path : Bytes → Bytes
unfolding bytes bytes_eq trim_prefix trim_space
trim_diff_path s =
    let path = trim_space s in
    if bytes_eq path (bytes "/dev/null")
    then []
    else trim_prefix (trim_prefix path (bytes "a/")) (bytes "b/")

-- The loop over the lines. `seen` of the source holds what `out` holds.
unfoldable pub changed_lines : List Bytes → Bytes → List Bytes → List Bytes
unfolding trim_diff_path has_prefix
changed_lines [] prev out = out
changed_lines (line ∷ lines) prev out =
    let from = trim_diff_path (trim_prefix line (bytes "--- ")) in
    let to = trim_diff_path (trim_prefix line (bytes "+++ ")) in
    let path = if is_empty to then prev else to in
    let fresh = not (is_empty path) && not (any (bytes_eq path) out) in
    let old = has_prefix line (bytes "--- ") in
    let new = not old && has_prefix line (bytes "+++ ") in
    changed_lines lines (if old then from else prev)
      (if new && fresh then out ++ path ∷ [] else out)

unfoldable pub changed_files : Bytes → List Bytes
unfolding changed_lines split
changed_files diff = changed_lines (split 10 diff) [] []
