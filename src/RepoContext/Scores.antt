-- ===== src/RepoContext/Scores.antt =====
-- About the map of scores of internal/repocontext, and the order by it.
use rojo.Base.{
  ℕ, ◌+◌, ◌*◌, zero, suc, Bytes, Bool, Bool-cases, true, false, List, [], ◌∷◌, ◌≡◌, refl, ◌∙◌, inl,
  inr, arith, bytes_eq, eq_of_bytes_eq, bytes_eq_comm, ltb, occurrences, take, if◌then◌else◌,
}
use rojo.Base.Sort.{insert_by, sort_by, bytes_less_asym}
use rojo.RepoContext.{Scores, score_of, add_score, add_where, with_points, ranks_before}

score_of-add :
    (f : Bytes) (n : ℕ) (s : Scores) (g : Bytes)
    → score_of (add_score f n s) g ≡ score_of s g + (if bytes_eq f g then n else 0)
unfolding score_of add_score
score_of-add f n [] g = ground arith
score_of-add f n ((h, m) ∷ s) g = elim (Bool-cases (bytes_eq h f)) [
  | inl e ↦ rw (e, eq_of_bytes_eq h f e) (ground arith)
  | inr e ↦ elim (Bool-cases (bytes_eq h g)) [
    | inl k ↦
        let other : bytes_eq f g ≡ false = rw (← eq_of_bytes_eq h g k) (bytes_eq_comm f h ∙ e) in
        rw (e, k, other) (omega arith)
    | inr k ↦ rw (e, k) (score_of-add f n s g)
  ]
]

-- What the files that pass a test add to the score of one.
abbrev pub where_points : (Bytes → Bool) → ℕ → List Bytes → Bytes → ℕ
where_points p n fs g = if p g then n * occurrences g fs else 0

where_points-cons :
    (p : Bytes → Bool) (n : ℕ) (f : Bytes) (fs : List Bytes) (g : Bytes)
    → where_points p n (f ∷ fs) g
      ≡ (if p f then (if bytes_eq f g then n else 0) else 0) + where_points p n fs g
where_points-cons p n f fs g = elim (Bool-cases (bytes_eq f g)) [
  | inl e ↦ rw (e, eq_of_bytes_eq f g e) (ground arith)
  | inr e ↦ rw e (ground arith)
]

pub where_none : (p : Bytes → Bool) (n : ℕ) (g : Bytes) → (if p g then n * 0 else 0) ≡ 0
where_none p n g = ground arith

pub score_of-where :
    (p : Bytes → Bool) (n : ℕ) (fs : List Bytes) (s : Scores) (g : Bytes)
    → score_of (add_where p n fs s) g ≡ score_of s g + where_points p n fs g
unfolding add_where
score_of-where p n [] s g = ground arith
score_of-where p n (f ∷ fs) s g = elim (Bool-cases (p f)) [
  | inl e ↦ rw e (
      omega (
        arith,
        score_of-where p n fs (add_score f n s) g,
        score_of-add f n s g,
        rw e at (where_points-cons p n f fs g),
      ))
  | inr e ↦ rw e (omega (arith, score_of-where p n fs s g, rw e at (where_points-cons p n f fs g)))
]

-- The keys of a map are different.
abbrev pub keys : Scores → List Bytes
keys [] = []
keys ((f, n) ∷ s) = f ∷ keys s

abbrev pub IsMap : Scores → Type 0
IsMap [] = Unit
IsMap ((f, n) ∷ s) = (occurrences f (keys s) ≡ 0) × IsMap s

add_score-lacks :
    (f : Bytes) (n : ℕ) (s : Scores) (g : Bytes)
    → occurrences g (keys s) ≡ 0
    → bytes_eq f g ≡ false
    → occurrences g (keys (add_score f n s)) ≡ 0
unfolding add_score
add_score-lacks f n [] g h k = rw k (omega arith)
add_score-lacks f n ((a, m) ∷ s) g h k = elim (Bool-cases (bytes_eq a f)) [
  | inl e ↦ rw e h
  | inr e ↦ rw e (omega (arith, h, add_score-lacks f n s g (omega (arith, h)) k))
]

add_score-IsMap : (f : Bytes) (n : ℕ) (s : Scores) → IsMap s → IsMap (add_score f n s)
unfolding add_score
add_score-IsMap f n [] h = (refl, tt)
add_score-IsMap f n ((a, m) ∷ s) (h, k) = elim (Bool-cases (bytes_eq a f)) [
  | inl e ↦ rw e (h, k)
  | inr e ↦ rw e (add_score-lacks f n s a h (bytes_eq_comm f a ∙ e), add_score-IsMap f n s k)
]

pub add_where-IsMap :
    (p : Bytes → Bool) (n : ℕ) (fs : List Bytes) (s : Scores) → IsMap s → IsMap (add_where p n fs s)
unfolding add_where
add_where-IsMap p n [] s h = h
add_where-IsMap p n (f ∷ fs) s h = elim (Bool-cases (p f)) [
  | inl e ↦ rw e (add_where-IsMap p n fs (add_score f n s) (add_score-IsMap f n s h))
  | inr e ↦ rw e (add_where-IsMap p n fs s h)
]

with_points-lacks :
    (s : Scores) (f : Bytes) → occurrences f (keys s) ≡ 0 → occurrences f (with_points s) ≡ 0
unfolding with_points
with_points-lacks [] f h = refl
with_points-lacks ((g, n) ∷ s) f h = elim (Bool-cases (ltb 0 n)) [
  | inl e ↦ rw e (omega (arith, h, with_points-lacks s f (omega (arith, h))))
  | inr e ↦ rw e (with_points-lacks s f (omega (arith, h)))
]

-- A file is listed once where it has points, and else not.
pub with_points-once :
    (s : Scores) (f : Bytes)
    → IsMap s
    → occurrences f (with_points s) ≡ (if ltb 0 (score_of s f) then 1 else 0)
unfolding with_points score_of
with_points-once [] f h = refl
with_points-once ((g, n) ∷ s) f (h, k) = elim (Bool-cases (bytes_eq g f)) [
  | inl e ↦
      let others : occurrences f (with_points s) ≡ 0 =
        with_points-lacks s f (rw (eq_of_bytes_eq g f e) at h) in
      elim (Bool-cases (ltb 0 n)) [
        | inl pos' ↦ rw (e, pos', e) (omega (arith, others))
        | inr zero' ↦ rw (e, zero') others
      ]
  | inr e ↦
      let rest = with_points-once s f k in
      elim (Bool-cases (ltb 0 n)) [
        | inl pos' ↦ rw (e, pos', e) (omega (arith, rest))
        | inr zero' ↦ rw (e, zero') rest
      ]
]

insert_by-occurrences :
    (before : Bytes → Bytes → Bool) (x : Bytes) (l : List Bytes) (f : Bytes)
    → occurrences f (insert_by before x l) ≡ occurrences f (x ∷ l)
unfolding insert_by
insert_by-occurrences before x [] f = refl
insert_by-occurrences before x (y ∷ ys) f = elim (Bool-cases (before y x)) [
  | inl e ↦ rw e (omega (arith, insert_by-occurrences before x ys f))
  | inr e ↦ rw e refl
]

pub sort_by-occurrences :
    (before : Bytes → Bytes → Bool) (l : List Bytes) (f : Bytes)
    → occurrences f (sort_by before l) ≡ occurrences f l
unfolding sort_by
sort_by-occurrences before [] f = refl
sort_by-occurrences before (x ∷ xs) f =
    omega
      (arith, insert_by-occurrences before x (sort_by before xs) f, sort_by-occurrences before xs f)

pub take-nil : (n : ℕ) → [] ≡ take {A = Bytes} n []
take-nil zero = refl
take-nil (suc n) = refl

pub ranks_before_asym :
    (score : Bytes → ℕ) (f g : Bytes)
    → ranks_before score f g ≡ true
    → ranks_before score g f ≡ false
unfolding ranks_before
ranks_before_asym score f g h = ground (arith, bytes_less_asym f g)
