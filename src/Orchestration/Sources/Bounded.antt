-- ===== src/Orchestration/Sources/Bounded.antt =====
-- About internal/orchestration/sources.go: what is shown to the model at most.
use rojo.Base.{
  ℕ, ◌+◌, ◌≤◌, ◌<◌, Bytes, Bool-cases, false, ◌||◌, List, [], ◌∷◌, ◌++◌, some, ◌≡◌, refl, inl, inr,
  found, arith, All, All-append, bytes, contains, clean, join_path, is_abs, length, length-append,
  leb,
}
use rojo.Errors.{ok}
use rojo.Agents.Types.{SourceFile}
use rojo.Orchestration.Sources.{
  Worktree, Found, missing, directory, file, read_found, read_source, read_more, read_sources,
  max_source_files, max_source_file_bytes, max_source_total_bytes,
}

-- The bytes of some files.
pub total_of : List SourceFile → ℕ
total_of [] = 0
total_of (s ∷ ss) = length s.content + total_of ss

total_of-snoc :
    (ss : List SourceFile) (s : SourceFile)
    → total_of (ss ++ s ∷ []) ≡ total_of ss + length s.content
unfolding total_of
total_of-snoc [] s = omega arith
total_of-snoc (t ∷ ss) s = omega (arith, total_of-snoc ss s)

-- A path of the repository that does not climb out of it.
abbrev pub IsInner : SourceFile → Type 0
IsInner s = (is_abs s.path ≡ false) × (contains s.path (bytes "..") ≡ false)

module _ (t : Worktree) (worktree : Bytes) (slack : ℕ)
    (honest : (p content : Bytes) (size : ℕ)
      → t.stat p ≡ file size
      → t.read_file p ≡ ok content
      → length content ≤ size + slack) where
  read_found-fits :
      (rel full : Bytes) (x : Found) (s : SourceFile)
      → t.stat full ≡ x
      → read_found t rel full x ≡ some s
      → (s.path ≡ rel) × (length s.content ≤ max_source_file_bytes + slack)
  unfolding read_found
  read_found-fits rel full missing s e h = absurd (let q = h in cc)
  read_found-fits rel full directory s e h = absurd (let q = h in cc)
  read_found-fits rel full (file size) s e h = ground (arith, honest full s.content size)

  read_source-fits :
      (rel : Bytes) (s : SourceFile)
      → read_source t worktree rel ≡ some s
      → IsInner s × (length s.content ≤ max_source_file_bytes + slack)
  unfolding read_source
  read_source-fits rel s h = elim (Bool-cases (is_abs rel || contains rel (bytes ".."))) [
    | inl e ↦ absurd (let q = rw (e, read_source) at h in cc)
    | inr e ↦
        let full = join_path worktree (clean rel) in
        let (same, fits) =
          read_found-fits rel full (t.stat full) s refl (rw (e, read_source) at h) in
        ((rw same (ground arith), rw same (ground arith)), fits)
  ]

  read_more-fits :
      (paths : List Bytes) (out : List SourceFile)
      → All IsInner out
      → length out ≤ max_source_files
      → total_of out < max_source_total_bytes + max_source_file_bytes + slack
      → All IsInner (read_more t worktree paths out (total_of out))
        × (length (read_more t worktree paths out (total_of out)) ≤ max_source_files)
        × (total_of (read_more t worktree paths out (total_of out))
            < max_source_total_bytes + max_source_file_bytes + slack)
  unfolding read_more
  read_more-fits [] out i l b = (i, l, b)
  read_more-fits (rel ∷ paths) out i l b =
      elim (Bool-cases
        (leb max_source_files (length out) || leb max_source_total_bytes (total_of out))) [
          | inl e ↦ rw e (i, l, b)
          | inr e ↦ rw e (elim (found (read_source t worktree rel)) [
            | inl m ↦ rw m (read_more-fits paths out i l b)
            | inr (s, m) ↦
                let (inner, fits) = read_source-fits rel s m in
                rw (m, ← total_of-snoc out s)
                  (read_more-fits paths (out ++ s ∷ [])
                    (All-append IsInner out (s ∷ []) i (inner, tt))
                    (ground (arith, length-append out (s ∷ [])))
                    (ground (arith, total_of-snoc out s)))
          ])
        ]

  -- At most maxSourceFiles files are shown, each by a relative path without "..", and in all fewer
  -- bytes than maxSourceTotalByte and one largest file together; `slack` bounds what a file may grow
  -- between its Stat and its reading.
  pub read_sources-bounds :
      (paths : List Bytes)
      → All IsInner (read_sources t worktree paths)
        × (length (read_sources t worktree paths) ≤ max_source_files)
        × (total_of (read_sources t worktree paths)
            < max_source_total_bytes + max_source_file_bytes + slack)
  unfolding read_sources total_of
  read_sources-bounds paths = read_more-fits paths [] tt (omega arith) (omega arith)
