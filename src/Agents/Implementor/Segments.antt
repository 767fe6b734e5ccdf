-- ===== src/Agents/Implementor/Segments.antt =====
-- About the segments of a cleaned path.
use rojo.Base.{
  ℕ, Bytes, Bool, Bool-cases, true, false, List, [], ◌∷◌, ◌++◌, ◌≡◌, refl, ap, ◌∙◌, ◌≢◌, ◌⊎◌, inl,
  inr, arith, All, All-join, All-reverse, ◌==◌, bytes_eq, eq_of_bytes_eq, is_empty, has_prefix,
  contains_byte, split, onto_first, join_with, is_abs, dot, dot_dot, step_up, step_to, walk,
  clean_text, clean, reverse, reverse-cons,
}

-- A text without the byte `c`.
abbrev pub Lacks : ℕ → Bytes → Type 0
Lacks c s = contains_byte c s ≡ false

onto_first-Lacks :
    (c b : ℕ) (ps : List Bytes)
    → b == c ≡ false
    → All (Lacks c) ps
    → All (Lacks c) (onto_first b ps)
unfolding contains_byte
onto_first-Lacks c b [] n h = (rw n refl, tt)
onto_first-Lacks c b (p ∷ ps) n (l, h) = (rw n l, h)

pub split-Lacks : (c : ℕ) (s : Bytes) → All (Lacks c) (split c s)
unfolding split contains_byte
split-Lacks c [] = (refl, tt)
split-Lacks c (b ∷ s) = elim (Bool-cases (b == c)) [
  | inl e ↦ rw e (refl, split-Lacks c s)
  | inr n ↦ rw n (onto_first-Lacks c b (split c s) n (split-Lacks c s))
]

-- Split undoes Join on pieces that lack the byte between them.
split-one : (c : ℕ) (p : Bytes) → Lacks c p → split c p ≡ p ∷ []
unfolding split contains_byte
split-one c [] h = refl
split-one c (b ∷ p) h = ground (arith, split-one c p)

split-append : (c : ℕ) (p s : Bytes) → Lacks c p → split c (p ++ c ∷ s) ≡ p ∷ split c s
unfolding split contains_byte
split-append c [] s h = ground arith
split-append c (b ∷ p) s h = ground (arith, split-append c p s)

pub split-join :
    (c : ℕ) (p : Bytes) (ps : List Bytes)
    → All (Lacks c) (p ∷ ps)
    → split c (join_with (c ∷ []) (p ∷ ps)) ≡ p ∷ ps
unfolding join_with
split-join c p [] (l, h) = split-one c p l
split-join c p (q ∷ qs) (l, h) =
    rw (split-append c p (join_with (c ∷ []) (q ∷ qs)) l, split-join c q qs h) refl

-- A segment that Clean keeps.
abbrev pub IsSegment : Bytes → Type 0
IsSegment s = Lacks b'/' s × (is_empty s ≡ false)

abbrev IsUp : Bytes → Type 0
IsUp s = bytes_eq s dot_dot ≡ true

abbrev pub IsName : Bytes → Type 0
IsName s = bytes_eq s dot_dot ≡ false

-- The segments kept so far, the last one first: below a ".." there are only such.
abbrev IsStack : List Bytes → Type 0
IsStack [] = Unit
IsStack (s ∷ ss) = IsSegment s × (IsUp s → All IsUp ss) × IsStack ss

step_up-IsStack : (rooted : Bool) (kept : List Bytes) → IsStack kept → IsStack (step_up rooted kept)
unfolding step_up contains_byte
step_up-IsStack true [] h = tt
step_up-IsStack false [] h = ((refl, refl), λ _. tt, tt)
step_up-IsStack rooted (d ∷ ds) (g, u, h) = elim (Bool-cases (bytes_eq d dot_dot)) [
  | inl e ↦ rw e ((refl, refl), λ _. (e, u e), (g, u, h))
  | inr n ↦ rw n h
]

step_to-IsStack :
    (rooted : Bool) (kept : List Bytes) (s : Bytes)
    → Lacks b'/' s
    → IsStack kept
    → IsStack (step_to rooted kept s)
unfolding step_to
step_to-IsStack rooted kept [] l h = h
step_to-IsStack rooted kept (b ∷ s) l h = elim (Bool-cases (bytes_eq (b ∷ s) dot)) [
  | inl e ↦ rw e h
  | inr n ↦ rw n (elim (Bool-cases (bytes_eq (b ∷ s) dot_dot)) [
    | inl e ↦ rw e (step_up-IsStack rooted kept h)
    | inr m ↦ rw m ((l, refl), λ e. absurd (let c : true ≡ false = rw (← e) m in cc), h)
  ])
]

walk-IsStack :
    (rooted : Bool) (kept ss : List Bytes)
    → All (Lacks b'/') ss
    → IsStack kept
    → IsStack (walk rooted kept ss)
unfolding walk
walk-IsStack rooted kept [] l h = h
walk-IsStack rooted kept (s ∷ ss) (l, ls) h =
    walk-IsStack rooted (step_to rooted kept s) ss ls (step_to-IsStack rooted kept s l h)

stack_segments : (kept : List Bytes) → IsStack kept → All IsSegment kept
stack_segments [] h = tt
stack_segments (s ∷ ss) (g, u, h) = (g, stack_segments ss h)

no_ups : (ss : List Bytes) → All IsUp ss → All IsName ss → ss ≡ []
no_ups [] h k = refl
no_ups (s ∷ ss) (u, h) (n, k) = absurd (let c : true ≡ false = rw (← u) n in cc)

-- A path that keeps a ".." begins with one.
bottom :
    (kept : List Bytes)
    → IsStack kept
    → All IsName kept ⊎ ((r : List Bytes) × (reverse kept ≡ dot_dot ∷ r))
bottom [] h = inl tt
bottom (s ∷ ss) (g, u, h) = elim (bottom ss h) [
  | inr (r, e) ↦ inr (r ++ s ∷ [], reverse-cons s ss ∙ ap (λ t. t ++ s ∷ []) e)
  | inl names ↦ elim (Bool-cases (bytes_eq s dot_dot)) [
    | inr n ↦ inl (n, names)
    | inl e ↦ inr ([], rw (no_ups ss (u e) names) (rw (eq_of_bytes_eq s dot_dot e) refl))
  ]
]

up_head :
    (s : Bytes) (ss r : List Bytes)
    → s ∷ ss ≡ dot_dot ∷ r
    → has_prefix (join_with (b'/' ∷ []) (s ∷ ss)) dot_dot ≢ false
unfolding has_prefix join_with
up_head s [] r e = let h : s ≡ dot_dot = cc in rw h (λ n. cc)
up_head s (t ∷ ss) r e = let h : s ≡ dot_dot = cc in rw h (λ n. cc)

-- What a relative path that does not begin with ".." is made of.
text_segments :
    (segs : List Bytes)
    → All IsSegment segs
    → All IsName segs ⊎ ((r : List Bytes) × (segs ≡ dot_dot ∷ r))
    → has_prefix (clean_text false segs) dot_dot ≡ false
    → All (λ s. (is_empty s ≡ false) × IsName s) (split b'/' (clean_text false segs))
unfolding clean_text has_prefix split contains_byte bytes_eq
text_segments [] g b n = ((refl, refl), tt)
text_segments (s ∷ ss) g (inl names) n =
    rw
      (split-join b'/' s ss
        (All-join IsSegment IsName (Lacks b'/') (s ∷ ss) (λ x p q. p.0) g names))
      (All-join IsSegment IsName _ (s ∷ ss) (λ x p q. (p.1, q)) g names)
text_segments (s ∷ []) g (inr (r, e)) n = absurd (up_head s [] r e n)
text_segments (s ∷ t ∷ ss) g (inr (r, e)) n = absurd (up_head s (t ∷ ss) r e n)

-- The path that Clean gives, where it is neither absolute nor begins with "..".
pub clean_segments :
    (s : Bytes)
    → has_prefix (clean s) dot_dot ≡ false
    → is_abs (clean s) ≡ false
    → All (λ p. (is_empty p ≡ false) × IsName p) (split b'/' (clean s))
unfolding clean
clean_segments s n a =
    let h = walk-IsStack false [] (split b'/' s) (split-Lacks b'/' s) tt in
    elim (Bool-cases (is_abs s)) [
      | inl e ↦ absurd (let c : true ≡ false = rw e at a in cc)
      | inr e ↦ rw e (
          text_segments (reverse (walk false [] (split b'/' s)))
            (All-reverse IsSegment _ (stack_segments _ h))
            (elim (bottom _ h) [ inl x ↦ inl (All-reverse IsName _ x) | inr r ↦ inr r ])
            (rw e at n))
    ]
