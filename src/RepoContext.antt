-- ===== src/RepoContext.antt =====
-- internal/repocontext: the files that are shown to the model for a task. Lower case and the runner of
-- commands are parameters; `max_files` below one stands for the default, as a negative one does.
pub mod Vocabulary
pub mod Words
pub mod Scores
pub mod Ranked
use rojo.Base.{
  ℕ, ◌+◌, ◌-◌, zero, Bytes, Bool, true, false, not, ◌&&◌, ◌||◌, List, [], ◌∷◌, ◌++◌, Option, none,
  some, any, bytes, bytes_eq, contains, cut_byte, decimal, dot, is_empty, leb, length, ltb, reverse,
  split, take, trim_space, ◌==◌, if◌then◌else◌,
}
use rojo.Base.Sort.{bytes_less, sort_by}
use rojo.Errors.{Error, plain, wrap, Result, ok, err}
use rojo.Execution.{CommandRunner, CommandResult}
use rojo.Workspaces.{git, git_args, exit_text, succeeded, ran}
use rojo.RepoContext.Vocabulary.{manifests, stopwords}

abbrev pub default_max_files : ℕ
default_max_files = 40

abbrev pub default_max_keywords : ℕ
default_max_keywords = 12

abbrev pub default_max_tree_paths : ℕ
default_max_tree_paths = 300

pub record Context : Type 0 where
  pub files : List Bytes
  pub tree : List Bytes
  pub keywords : List Bytes
  pub total_tracked : ℕ

-- What a Selector stands on; `to_lower` is strings.ToLower.
pub record Selector (W : Type 0) : Type 0 where
  pub runner : CommandRunner W
  pub max_files : ℕ
  pub to_lower : Bytes → Bytes

-- maxFiles
unfoldable pub file_limit : ℕ → ℕ
file_limit n = if leb n 0 then default_max_files else n

-- A byte of a keyword. The runes above ASCII end a word, byte by byte.
unfoldable pub word_byte : ℕ → Bool
word_byte b =
    (b == b'_') || ((b == b'-') || ((leb b'a' b && leb b b'z') || (leb b'0' b && leb b b'9')))

-- A word put before the others, unless it is empty.
abbrev pub onto_words : Bytes → List Bytes → List Bytes
onto_words w ws = if is_empty w then ws else w ∷ ws

-- strings.FieldsFunc: the word that is being read, last byte first, and the rest.
unfoldable pub words_from : Bytes → Bytes → List Bytes
words_from w [] = onto_words (reverse w) []
words_from w (b ∷ s) = elim (word_byte b) [
  | true ↦ words_from (b ∷ w) s
  | false ↦ onto_words (reverse w) (words_from [] s)
]

-- The words that Keywords passes over.
unfoldable pub is_noise : List Bytes → Bytes → Bool
is_noise out raw = ltb (length raw) 3 || (any (bytes_eq raw) stopwords || any (bytes_eq raw) out)

-- The loop of Keywords, on the words so far.
unfoldable pub collect : List Bytes → List Bytes → List Bytes
collect out [] = out
collect out (raw ∷ words) = elim (is_noise out raw) [
  | true ↦ collect out words
  | false ↦
      let more = collect (out ++ raw ∷ []) words in
      if length (out ++ raw ∷ []) == default_max_keywords then out ++ raw ∷ [] else more
]

-- Keywords
unfoldable pub keywords : (Bytes → Bytes) → Bytes → List Bytes
keywords to_lower task = collect [] (words_from [] (to_lower task))

-- splitLines
unfoldable pub nonblank : List Bytes → List Bytes
nonblank [] = []
nonblank (l ∷ ls) =
    let rest = nonblank ls in let t = trim_space l in if is_empty t then rest else t ∷ rest

unfoldable pub split_lines : Bytes → List Bytes
split_lines s = nonblank (split 10 s)

-- The text without the slashes at its start.
unfoldable pub drop_slashes : Bytes → Bytes
drop_slashes [] = []
drop_slashes (b ∷ s) = let rest = drop_slashes s in if b == b'/' then rest else b ∷ s

-- path.Base
unfoldable pub base_name : Bytes → Bytes
unfolding cut_byte drop_slashes
base_name p =
    let backwards = drop_slashes (reverse p) in
    if is_empty p
    then dot
    else if is_empty backwards
    then b'/' ∷ []
    else elim (cut_byte b'/' backwards) [
      | none ↦ reverse backwards
      | some (name, rest) ↦ reverse name
    ]

-- The map score, as a list of its keys and values.
abbrev pub Scores : Type 0
Scores = List (Bytes × ℕ)

-- score[f], which is 0 for a key that the map has not.
unfoldable pub score_of : Scores → Bytes → ℕ
score_of [] f = 0
score_of ((g, n) ∷ s) f = if bytes_eq g f then n else score_of s f

-- score[f] += n
unfoldable pub add_score : Bytes → ℕ → Scores → Scores
add_score f n [] = (f, n) ∷ []
add_score f n ((g, m) ∷ s) =
    let rest = add_score f n s in if bytes_eq g f then (g, m + n) ∷ s else (g, m) ∷ rest

-- The loops over files that pass a test.
unfoldable pub add_where : (Bytes → Bool) → ℕ → List Bytes → Scores → Scores
add_where p n [] s = s
add_where p n (f ∷ fs) s = add_where p n fs (if p f then add_score f n s else s)

unfoldable pub with_points : Scores → List Bytes
with_points [] = []
with_points ((f, n) ∷ s) = let rest = with_points s in if ltb 0 n then f ∷ rest else rest

-- The comparison of the ranking: the higher score first, and the paths where two are equal.
unfoldable pub ranks_before : (Bytes → ℕ) → Bytes → Bytes → Bool
ranks_before score f g = if score f == score g then bytes_less f g else ltb (score g) (score f)

module _ {W : Type 0} (s : Selector W) where
  -- trackedFiles
  unfoldable pub tracked_of : CommandResult × Option Error → Result (List Bytes)
  unfolding exit_text bytes
  tracked_of (r, some e) = err e
  tracked_of (r, none) =
      if succeeded r
      then ok (split_lines r.stdout)
      else err (
          plain
            (bytes "git ls-files exited " ++ (exit_text r.exit_code ++ (bytes ": " ++ r.stderr))))

  unfoldable pub tracked_files : Bytes → W → Result (List Bytes) × W
  unfolding bytes
  tracked_files repo w =
      let (answer, w1) = s.runner repo git (git_args (bytes "ls-files" ∷ [])) w in
      (tracked_of answer, w1)

  abbrev pub grep_args : Bytes → List Bytes
  unfolding bytes
  grep_args kw =
      bytes "grep" ∷ bytes "--ignore-case" ∷ bytes "--fixed-strings" ∷ bytes "--name-only" ∷ kw ∷ []

  -- grepFiles
  unfoldable pub grep_files : Bytes → Bytes → W → List Bytes × W
  grep_files repo kw w =
      let (answer, w1) = s.runner repo git (git_args (grep_args kw)) w in
      (if ran answer then split_lines (answer.0).stdout else [], w1)

  -- The path of a file names the keyword.
  unfoldable pub names_keyword : Bytes → Bytes → Bool
  names_keyword kw f = contains (s.to_lower f) kw

  -- The loop over the keywords.
  unfoldable pub score_keywords : Bytes → List Bytes → List Bytes → Scores → W → Scores × W
  score_keywords repo tracked [] score w = (score, w)
  score_keywords repo tracked (kw ∷ kws) score w =
      let named = add_where (names_keyword kw) 3 tracked score in
      let (hits, w1) = grep_files repo kw w in
      score_keywords repo tracked kws (add_where (λ f. any (bytes_eq f) tracked) 2 hits named) w1

  unfoldable pub is_manifest : Bytes → Bool
  is_manifest f = any (bytes_eq (base_name f)) manifests

  -- The ranked files of a score, up to the limit.
  unfoldable pub ranked_files : Scores → List Bytes
  ranked_files score =
      take (file_limit s.max_files) (sort_by (ranks_before (score_of score)) (with_points score))

  -- Select, from the tracked files on.
  unfoldable pub select_among : Bytes → Bytes → List Bytes → W → Context × W
  select_among repo task tracked w =
      let kws = keywords s.to_lower task in
      let found_none : Context = record {
        files = [];
        tree = take default_max_tree_paths tracked;
        keywords = kws;
        total_tracked = length tracked;
      } in
      elim (length tracked == 0) [
        | true ↦ (found_none, w)
        | false ↦
            let (score, w1) = score_keywords repo tracked kws [] w in
            (record found_none { files = ranked_files (add_where is_manifest 1 tracked score) }, w1)
      ]

  -- Select
  unfoldable pub select : Bytes → Bytes → W → Result Context × W
  unfolding bytes
  select repo task w =
      let (listed, w1) = tracked_files repo w in
      elim listed [
        | err e ↦ (err (wrap (bytes "list tracked files: ") e []), w1)
        | ok tracked ↦ let (c, w2) = select_among repo task tracked w1 in (ok c, w2)
      ]
