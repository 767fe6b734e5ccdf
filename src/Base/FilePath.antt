-- ===== src/Base/FilePath.antt =====
-- What the program calls of the package path/filepath, on Unix: a path is read as the segments
-- between its slashes.
use mathlib.Core.Bool.{Bool, true, false, ◌||◌}
use mathlib.Core.List.{List, [], ◌∷◌, ◌++◌, reverse}
use rojo.Base.Tests.{◌==◌, if◌then◌else◌}
use rojo.Base.Text.{Bytes, bytes_eq, is_empty, split, join_with}

-- filepath.IsAbs
unfoldable pub is_abs : Bytes → Bool
is_abs [] = false
is_abs (b ∷ s) = b == b'/'

abbrev pub dot : Bytes
dot = 46 ∷ []

abbrev pub dot_dot : Bytes
dot_dot = 46 ∷ 46 ∷ []

-- The segments that are kept, the last one first. A ".." takes the one before it away, unless that is
-- a ".." too; at the start of a path that is not rooted it is kept.
unfoldable pub step_up : Bool → List Bytes → List Bytes
step_up rooted [] = if rooted then [] else dot_dot ∷ []
step_up rooted (d ∷ ds) = if bytes_eq d dot_dot then dot_dot ∷ d ∷ ds else ds

unfoldable pub step_to : Bool → List Bytes → Bytes → List Bytes
step_to rooted kept s =
    if is_empty s || bytes_eq s dot
    then kept
    else if bytes_eq s dot_dot
    then step_up rooted kept
    else s ∷ kept

unfoldable pub walk : Bool → List Bytes → List Bytes → List Bytes
walk rooted kept [] = kept
walk rooted kept (s ∷ ss) = walk rooted (step_to rooted kept s) ss

-- The text of the segments that are kept.
unfoldable pub clean_text : Bool → List Bytes → Bytes
clean_text true kept = b'/' ∷ join_with (b'/' ∷ []) kept
clean_text false [] = dot
clean_text false (s ∷ ss) = join_with (b'/' ∷ []) (s ∷ ss)

-- filepath.Clean
unfoldable pub clean : Bytes → Bytes
unfolding walk clean_text is_abs
clean s = let rooted = is_abs s in clean_text rooted (reverse (walk rooted [] (split b'/' s)))

-- The text up to the last slash and with it.
unfoldable pub through_slash : Bytes → Bytes
through_slash [] = []
through_slash (b ∷ s) =
    let rest = through_slash s in
    if is_empty rest then (if b == b'/' then b ∷ [] else []) else b ∷ rest

-- filepath.Dir
unfoldable pub dir_of : Bytes → Bytes
unfolding clean through_slash
dir_of s = clean (through_slash s)

-- filepath.Join of a directory and a name.
unfoldable pub join_path : Bytes → Bytes → Bytes
unfolding clean
join_path dir name = if is_empty dir then clean name else clean (dir ++ b'/' ∷ name)
