-- ===== src/RepoContext/Ranked.antt =====
-- About Select of internal/repocontext: which files are shown, and in which order.
use rojo.Base.{
  ℕ, ◌+◌, ◌<◌, Bytes, Bool-cases, false, List, [], ◌∷◌, ◌≡◌, refl, ap, ◌∙◌, inl, inr, arith, any,
  bytes_eq, length, ltb, occurrences, occurrences-present, take, ◌==◌, if◌then◌else◌,
}
use mathlib.Core.Path.{fun_ext}
use rojo.Base.Sort.{sort_by, InOrder, sort_by-InOrder}
use rojo.RepoContext.{
  Selector, Scores, score_of, add_where, with_points, ranks_before, file_limit, keywords,
  grep_files, names_keyword, score_keywords, is_manifest, ranked_files, select_among,
}
use rojo.RepoContext.Scores.{
  where_points, where_none, score_of-where, IsMap, add_where-IsMap, with_points-once,
  sort_by-occurrences, take-nil, ranks_before_asym,
}

-- A ranking of the files by points, and the first of them as many as the limit allows: each file with
-- points stands in it once, the one with more points first and the lesser path where two have the same,
-- and is tracked.
pub record Ranking (points : Bytes → ℕ) (limit : ℕ) (tracked files : List Bytes) : Type 0 where
  pub ranked : List Bytes
  pub shown : files ≡ take limit ranked
  pub ordered : InOrder (ranks_before points) ranked
  pub once : (f : Bytes) → occurrences f ranked ≡ (if ltb 0 (points f) then 1 else 0)
  pub tracked_only : (f : Bytes) → 0 < points f → 0 < occurrences f tracked

module _ {W : Type 0} (s : Selector W) where
  -- The keywords with what git grep finds for them, one after the other.
  abbrev pub greps : Bytes → List Bytes → W → List (Bytes × List Bytes) × W
  greps repo [] w = ([], w)
  greps repo (kw ∷ kws) w =
      let (hits, w1) = grep_files s repo kw w in
      let (rest, w2) = greps repo kws w1 in ((kw, hits) ∷ rest, w2)

  -- The points of a file for the keywords: three for each that its path names, and two for each that
  -- git grep finds it for.
  abbrev pub keyword_points : List Bytes → List (Bytes × List Bytes) → Bytes → ℕ
  keyword_points tracked [] f = 0
  keyword_points tracked ((kw, hits) ∷ more) f =
      where_points (names_keyword s kw) 3 tracked f
      + (where_points (λ g. any (bytes_eq g) tracked) 2 hits f + keyword_points tracked more f)

  score_keywords-points :
      (repo : Bytes) (tracked kws : List Bytes) (score : Scores) (w : W) (f : Bytes)
      → score_of (score_keywords s repo tracked kws score w).0 f
        ≡ score_of score f + keyword_points tracked (greps repo kws w).0 f
  unfolding score_keywords
  score_keywords-points repo tracked [] score w f = omega arith
  score_keywords-points repo tracked (kw ∷ kws) score w f =
      let named = add_where (names_keyword s kw) 3 tracked score in
      let hits = grep_files s repo kw w in
      omega (
        arith,
        score_of-where (names_keyword s kw) 3 tracked score f,
        score_of-where (λ g. any (bytes_eq g) tracked) 2 hits.0 named f,
        score_keywords-points repo tracked kws
            (add_where (λ g. any (bytes_eq g) tracked) 2 hits.0 named) hits.1 f,
      )

  score_keywords-IsMap :
      (repo : Bytes) (tracked kws : List Bytes) (score : Scores) (w : W)
      → IsMap score
      → IsMap (score_keywords s repo tracked kws score w).0
  unfolding score_keywords
  score_keywords-IsMap repo tracked [] score w h = h
  score_keywords-IsMap repo tracked (kw ∷ kws) score w h =
      score_keywords-IsMap repo tracked kws _ _
        (add_where-IsMap _ 2 _ _ (add_where-IsMap _ 3 tracked score h))

  -- The points of a file: for the keywords, and one for a manifest.
  abbrev pub points : Bytes → Bytes → List Bytes → W → Bytes → ℕ
  points repo task tracked w f =
      keyword_points tracked (greps repo (keywords s.to_lower task) w).0 f
      + where_points (is_manifest s) 1 tracked f

  untracked-points :
      (tracked : List Bytes) (found : List (Bytes × List Bytes)) (f : Bytes)
      → occurrences f tracked ≡ 0
      → keyword_points tracked found f ≡ 0
  untracked-points tracked [] f h = refl
  untracked-points tracked ((kw, hits) ∷ more) f h = elim (Bool-cases (any (bytes_eq f) tracked)) [
    | inl e ↦ absurd (omega (arith, h, occurrences-present f tracked e))
    | inr e ↦
        rw (h, e)
          (omega (arith, untracked-points tracked more f h, where_none (names_keyword s kw) 3 f))
  ]

  -- A file without a place among the tracked ones has no points.
  points-untracked :
      (repo task : Bytes) (tracked : List Bytes) (w : W) (f : Bytes)
      → occurrences f tracked ≡ 0
      → points repo task tracked w f ≡ 0
  points-untracked repo task tracked w f h =
      let none_found = untracked-points tracked (greps repo (keywords s.to_lower task) w).0 f h in
      rw (h, none_found) (omega (arith, where_none (is_manifest s) 1 f))

  score_of-points :
      (repo task : Bytes) (tracked : List Bytes) (w : W) (f : Bytes)
      → score_of
          (add_where
            (is_manifest s)
            1
            tracked
            (score_keywords s repo tracked (keywords s.to_lower task) [] w).0)
          f
        ≡ points repo task tracked w f
  unfolding score_of
  score_of-points repo task tracked w f =
      let kws = keywords s.to_lower task in
      omega (
        arith,
        score_of-where (is_manifest s) 1 tracked (score_keywords s repo tracked kws [] w).0 f,
        score_keywords-points repo tracked kws [] w f,
      )

  has_place :
      (repo task : Bytes) (tracked : List Bytes) (w : W) (f : Bytes)
      → 0 < points repo task tracked w f
      → 0 < occurrences f tracked
  has_place repo task tracked w f h = elim (Bool-cases (ltb 0 (occurrences f tracked))) [
    | inl e ↦ ground (arith, e)
    | inr e ↦ absurd (omega (arith, h, points-untracked repo task tracked w f (ground (arith, e))))
  ]

  -- Select shows the first files of a ranking, as many as the limit allows, in which each file with
  -- points stands once, the one with more points first and the lesser path where two have the same. A
  -- file has three points for each keyword that its path names and one as a manifest, as often as git
  -- lists it, and two for each time that git grep finds it for a keyword; only tracked files have any.
  pub select_among-ranks :
      (repo task : Bytes) (tracked : List Bytes) (w : W)
      → Ranking
          (points repo task tracked w)
          (file_limit s.max_files)
          tracked
          (select_among s repo task tracked w).0.files
  unfolding select_among ranked_files
  select_among-ranks repo task [] w = record {
    ranked = [];
    shown = take-nil (file_limit s.max_files);
    ordered = tt;
    once = λ f. rw (points-untracked repo task [] w f refl) refl;
    tracked_only = λ f. has_place repo task [] w f;
  }
  select_among-ranks repo task (g ∷ gs) w =
      let tracked = g ∷ gs in
      let kws = keywords s.to_lower task in
      let score = add_where (is_manifest s) 1 tracked (score_keywords s repo tracked kws [] w).0 in
      let by_points = ranks_before (points repo task tracked w) in
      let same = fun_ext (λ f. score_of-points repo task tracked w f) in
      let some_tracked : length tracked == 0 ≡ false = ground arith in
      let is_map =
        add_where-IsMap (is_manifest s) 1 tracked _
          (score_keywords-IsMap repo tracked kws [] w tt) in
      record {
        ranked = sort_by by_points (with_points score);
        shown =
            rw (select_among, some_tracked)
              (ap
                (λ p. take (file_limit s.max_files) (sort_by (ranks_before p) (with_points score)))
                same);
        ordered =
            sort_by-InOrder by_points (ranks_before_asym (points repo task tracked w))
              (with_points score);
        once = λ f.
            sort_by-occurrences by_points (with_points score) f
            ∙ (with_points-once score f is_map
                ∙ ap (λ n. if ltb 0 n then 1 else 0) (score_of-points repo task tracked w f));
        tracked_only = λ f. has_place repo task tracked w f;
      }
