-- ===== src/Storage/Cleaned.antt =====
-- What filepath.Clean keeps of two plain parts at the end of a path.
use rojo.Base.{
  Bytes, Bool, true, false, List, [], ◌∷◌, ◌++◌, ◌≡◌, refl, ap, ◌∙◌, split-append, split-lacking,
  join_with-last, bytes_eq, is_empty, contains_byte, split, join_with, is_abs, dot, dot_dot,
  step_to, walk, clean_text, clean, reverse, reverse-cons,
}
use mathlib.Core.List.{append_assoc}

-- A part of a path that Clean leaves alone.
pub record IsPlain (n : Bytes) : Type 0 where
  pub full : is_empty n ≡ false
  pub one : contains_byte b'/' n ≡ false
  pub not_dot : bytes_eq n dot ≡ false
  pub not_up : bytes_eq n dot_dot ≡ false

pub step_to-IsPlain :
    (r : Bool) (kept : List Bytes) (n : Bytes) → IsPlain n → step_to r kept n ≡ n ∷ kept
unfolding step_to
step_to-IsPlain r kept n p = rw (p.full, p.not_dot, p.not_up) refl

pub walk-append :
    (r : Bool) (kept ss ts : List Bytes) → walk r kept (ss ++ ts) ≡ walk r (walk r kept ss) ts
unfolding walk
walk-append r kept [] ts = refl
walk-append r kept (s ∷ ss) ts = walk-append r (step_to r kept s) ss ts

pub is_abs-append : (s t : Bytes) → is_empty s ≡ false → is_abs (s ++ t) ≡ is_abs s
unfolding is_abs
is_abs-append [] t h = cc
is_abs-append (b ∷ s) t h = refl

-- What is kept of a text with two plain parts behind it.
walk_two :
    (r : Bool) (s i n : Bytes)
    → IsPlain i
    → IsPlain n
    → walk r [] (split b'/' (s ++ b'/' ∷ (i ++ b'/' ∷ n))) ≡ n ∷ i ∷ walk r [] (split b'/' s)
unfolding walk
walk_two r s i n p q =
    rw
      (
        split-append b'/' s (i ++ b'/' ∷ n),
        split-append b'/' i n,
        split-lacking b'/' i p.one,
        split-lacking b'/' n q.one,
        walk-append r [] (split b'/' s) (i ∷ n ∷ []),
        step_to-IsPlain r (walk r [] (split b'/' s)) i p,
        step_to-IsPlain r (i ∷ walk r [] (split b'/' s)) n q,
      )
      refl

-- What stands before the last part of a cleaned path.
unfoldable pub before : Bool → List Bytes → Bytes
before true [] = b'/' ∷ []
before false [] = []
before r (s ∷ ss) = clean_text r (s ∷ ss) ++ b'/' ∷ []

pub clean_text-last :
    (r : Bool) (ss : List Bytes) (n : Bytes) → clean_text r (ss ++ n ∷ []) ≡ before r ss ++ n
unfolding clean_text before join_with
clean_text-last true [] n = refl
clean_text-last false [] n = refl
clean_text-last true (s ∷ ss) n =
    ap (λ t. b'/' ∷ t) (join_with-last (b'/' ∷ []) s ss n ∙ simp append_assoc)
clean_text-last false (s ∷ ss) n = join_with-last (b'/' ∷ []) s ss n ∙ simp append_assoc

before-last :
    (r : Bool) (ss : List Bytes) (n : Bytes)
    → before r (ss ++ n ∷ []) ≡ before r ss ++ (n ++ b'/' ∷ [])
unfolding before
before-last true [] n =
    ap (λ t. t ++ b'/' ∷ []) (clean_text-last true [] n)
    ∙ append_assoc (before true []) n (b'/' ∷ [])
before-last false [] n =
    ap (λ t. t ++ b'/' ∷ []) (clean_text-last false [] n)
    ∙ append_assoc (before false []) n (b'/' ∷ [])
before-last true (s ∷ ss) n =
    ap (λ t. t ++ b'/' ∷ []) (clean_text-last true (s ∷ ss) n)
    ∙ append_assoc (before true (s ∷ ss)) n (b'/' ∷ [])
before-last false (s ∷ ss) n =
    ap (λ t. t ++ b'/' ∷ []) (clean_text-last false (s ∷ ss) n)
    ∙ append_assoc (before false (s ∷ ss)) n (b'/' ∷ [])

-- What Clean makes of the part of a path before two plain ones.
unfoldable pub base_of : Bytes → Bytes
base_of s = before (is_abs s) (reverse (walk (is_abs s) [] (split b'/' s)))

-- The path of two plain parts behind a text.
pub clean_two :
    (s i n : Bytes)
    → is_empty s ≡ false
    → IsPlain i
    → IsPlain n
    → clean (s ++ b'/' ∷ (i ++ b'/' ∷ n)) ≡ base_of s ++ (i ++ b'/' ∷ n)
unfolding clean base_of
clean_two s i n h p q =
    let r = is_abs s in
    let kept = walk r [] (split b'/' s) in
    rw
      (
        is_abs-append s (b'/' ∷ (i ++ b'/' ∷ n)) h,
        walk_two r s i n p q,
        reverse-cons n (i ∷ kept),
        reverse-cons i kept,
        clean_text-last r (reverse kept ++ i ∷ []) n,
        before-last r (reverse kept) i,
      )
      (simp append_assoc)
