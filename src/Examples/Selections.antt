-- ===== src/Examples/Selections.antt =====
-- The theorems about the files that are shown to the model, over a repository of two files.
use rojo.Base.{ℕ, Bytes, [], ◌∷◌, none, ◌≡◌, refl, bytes, List}
use rojo.Execution.{no_result}
use rojo.Base.Sort.{sort_by, bytes_less, insert_by}
use rojo.Base.{
  bytes_eq, ascii_space, trim_left, trim_reversed, trim_space, contains, cut_byte, has_prefix,
  split,
}
use rojo.Workspaces.{git_args}
use rojo.RepoContext.{
  Selector, keywords, words_from, file_limit, select_among, ranked_files, with_points, add_where,
  is_manifest, base_name, add_score, score_keywords, collect, word_byte, is_noise, drop_slashes,
  grep_files, names_keyword, nonblank, ranks_before, score_of, split_lines,
}
use rojo.RepoContext.Vocabulary.{manifests, stopwords}
use rojo.RepoContext.Words.{IsCollected, keywords-IsCollected}
use rojo.RepoContext.Ranked.{Ranking, points, select_among-ranks}

abbrev task : Bytes
unfolding bytes
task = bytes "fix the rate limiter"

keywords-IsCollected_example : IsCollected [] (words_from [] task) (keywords (λ s. s) task)
keywords-IsCollected_example = keywords-IsCollected (λ s. s) task

abbrev two_files : List Bytes
unfolding bytes
two_files = bytes "api/limiter.go" ∷ bytes "go.mod" ∷ []

abbrev selector : Selector ℕ
unfolding bytes
selector = record {
  runner = λ dir command args w. ((record no_result { stdout = bytes "api/limiter.go" }, none), w);
  max_files = 0;
  to_lower = λ s. s;
}

select_among-ranks_example :
    Ranking
      (points selector [] task two_files 0)
      (file_limit 0)
      two_files
      (select_among selector [] task two_files 0).0.files
unfolding bytes
select_among-ranks_example = select_among-ranks selector [] task two_files 0

-- Both are shown, the one that the task names before the manifest.
shown : (select_among selector [] task two_files 0).0.files ≡ two_files
unfolding select_among bytes ranked_files file_limit sort_by with_points add_where is_manifest
    manifests bytes_eq base_name add_score score_keywords keywords collect words_from word_byte
    is_noise stopwords bytes_less insert_by ascii_space trim_left trim_reversed trim_space contains
    cut_byte has_prefix split drop_slashes grep_files names_keyword nonblank ranks_before score_of
    split_lines git_args
shown = refl
