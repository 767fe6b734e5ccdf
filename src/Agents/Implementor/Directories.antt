-- ===== src/Agents/Implementor/Directories.antt =====
-- About filepath.Dir, as internal/agents/implementor/implementor.go uses it.
use rojo.Base.{
  Bytes, Bool-cases, true, false, List, [], ◌∷◌, ◌≡◌, refl, ap, ◌⊎◌, inl, inr, All, All-join,
  All-reverse, ◌==◌, bytes, has_prefix, bytes_eq, is_empty, split, head_of, tail_of, onto_first_lem,
  split_lem, is_abs, dot, step_to, walk, clean_text, clean, through_slash, dir_of,
}
use rojo.Agents.Implementor.{is_protected, to_lower}
use rojo.Agents.Implementor.Segments.{Lacks, IsName, split-Lacks, split-join}

is_empty-nil : (s : Bytes) → is_empty s ≡ true → s ≡ []
is_empty-nil [] h = refl
is_empty-nil (b ∷ s) h = absurd (let c : false ≡ true = h in cc)

same_head :
    (s : Bytes)
    → is_empty (through_slash s) ≡ false
    → head_of (split b'/' (through_slash s)) ≡ head_of (split b'/' s)
unfolding split through_slash
same_head [] h = absurd (let q = h in cc)
same_head (b ∷ s) h = elim (Bool-cases (is_empty (through_slash s))) [
  | inl e ↦ elim (Bool-cases (b == b'/')) [
    | inl f ↦ rw (e, f, split, f) refl
    | inr f ↦ absurd (let c : true ≡ false = rw (e, f) at h in cc)
  ]
  | inr e ↦ elim (Bool-cases (b == b'/')) [
    | inl f ↦ rw (e, split, f) refl
    | inr f ↦
        rw
          (
            e,
            split,
            f,
            onto_first_lem b (split b'/' (through_slash s)),
            onto_first_lem b (split b'/' s),
          )
          (ap (λ t. b ∷ t) (same_head s e))
  ]
]

module _ (Q : Bytes → Type 0) (empty : Q []) where
  same_tail :
      (s : Bytes) → All Q (tail_of (split b'/' s)) → All Q (tail_of (split b'/' (through_slash s)))
  unfolding split through_slash
  same_tail [] h = tt
  same_tail (b ∷ s) h = elim (Bool-cases (is_empty (through_slash s))) [
    | inl e ↦ elim (Bool-cases (b == b'/')) [
      | inl f ↦ rw (e, f, split, f) (empty, tt)
      | inr f ↦ rw (e, f, split) tt
    ]
    | inr e ↦ elim (Bool-cases (b == b'/')) [
      | inl f ↦
          let (q, k) : Q (head_of (split b'/' s)) × All Q (tail_of (split b'/' s)) =
            rw (split, f, split_lem b'/' s) at h in
          rw (e, split, f, split_lem b'/' (through_slash s), same_head s e) (q, same_tail s k)
      | inr f ↦
          let k : All Q (tail_of (split b'/' s)) =
            rw (split, f, onto_first_lem b (split b'/' s)) at h in
          rw (e, split, f, onto_first_lem b (split b'/' (through_slash s))) (same_tail s k)
    ]
  ]

  through_slash-All : (s : Bytes) → All Q (split b'/' s) → All Q (split b'/' (through_slash s))
  unfolding split
  through_slash-All s h =
      let (q, k) : Q (head_of (split b'/' s)) × All Q (tail_of (split b'/' s)) =
        rw (split_lem b'/' s) at h in
      elim (Bool-cases (is_empty (through_slash s))) [
        | inl e ↦ rw (is_empty-nil (through_slash s) e, split) (empty, tt)
        | inr e ↦ rw (split_lem b'/' (through_slash s), same_head s e) (q, same_tail s k)
      ]

-- A name that is not protected.
abbrev pub IsProper : Bytes → Type 0
IsProper s = ((is_empty s ≡ false) × IsName s) × (is_protected s ≡ false)

-- A path that stays below the directory that it is relative to, and passes no protected name.
abbrev pub IsInside : Bytes → Type 0
IsInside p = All IsProper (split b'/' p)

abbrev IsPart : Bytes → Type 0
IsPart s = (is_empty s ≡ true) ⊎ IsProper s

abbrev IsKept : Bytes → Type 0
IsKept s = Lacks b'/' s × IsProper s

step_to-IsKept :
    (kept : List Bytes) (s : Bytes)
    → Lacks b'/' s
    → IsPart s
    → All IsKept kept
    → All IsKept (step_to false kept s)
unfolding step_to
step_to-IsKept kept s l (inl e) h = rw e h
step_to-IsKept kept s l (inr ((e, n), p)) h = elim (Bool-cases (bytes_eq s dot)) [
  | inl d ↦ rw (e, d) h
  | inr d ↦ rw (e, d, n) ((l, ((e, n), p)), h)
]

walk-IsKept :
    (kept ss : List Bytes)
    → All (Lacks b'/') ss
    → All IsPart ss
    → All IsKept kept
    → All IsKept (walk false kept ss)
unfolding walk
walk-IsKept kept [] l p h = h
walk-IsKept kept (s ∷ ss) (l, ls) (p, ps) h =
    walk-IsKept (step_to false kept s) ss ls ps (step_to-IsKept kept s l p h)

dot-IsProper : IsProper dot
unfolding is_protected to_lower has_prefix bytes bytes_eq
dot-IsProper = ((refl, refl), refl)

clean_text-IsProper :
    (segs : List Bytes) → All IsKept segs → All IsProper (split b'/' (clean_text false segs))
unfolding clean_text split
clean_text-IsProper [] h = (dot-IsProper, tt)
clean_text-IsProper (s ∷ ss) h =
    rw (split-join b'/' s ss (All-join IsKept IsKept (Lacks b'/') (s ∷ ss) (λ x p q. p.0) h h))
      (All-join IsKept IsKept IsProper (s ∷ ss) (λ x p q. p.1) h h)

rooted_head : (t : Bytes) → is_abs t ≡ true → (is_empty t ≡ false) × (head_of (split b'/' t) ≡ [])
unfolding is_abs split
rooted_head [] a = absurd (let c : false ≡ true = a in cc)
rooted_head (b ∷ t) a = (refl, rw a refl)

relative : (s : Bytes) → IsInside s → is_abs (through_slash s) ≡ false
relative s h = elim (Bool-cases (is_abs (through_slash s))) [
  | inr a ↦ a
  | inl a ↦
      let (full, at_slash) = rooted_head (through_slash s) a in
      let (((e, n), p), k) : IsProper (head_of (split b'/' s))
          × All IsProper (tail_of (split b'/' s)) =
        rw (split_lem b'/' s) at h in
      let c : true ≡ false = rw (← same_head s full, at_slash) at e in absurd (cc)
]

-- The directory of an inside path is inside.
pub dir_of-IsInside : (s : Bytes) → IsInside s → IsInside (dir_of s)
unfolding dir_of clean
dir_of-IsInside s h =
    let parts : All IsPart (split b'/' s) =
      All-join IsProper IsProper IsPart _ (λ x p q. inr p) h h in
    rw (relative s h) (
      clean_text-IsProper _ (
        All-reverse IsKept _ (
          walk-IsKept [] _ (split-Lacks b'/' (through_slash s))
            (through_slash-All IsPart (inl refl) s parts) tt)))
