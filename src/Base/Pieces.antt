-- ===== src/Base/Pieces.antt =====
-- About strings.Split and strings.Join.
use Prim.Native.Nat.{ℕ}
use mathlib.Core.Path.{◌≡◌, refl}
use mathlib.Core.Logic.{inl, inr}
use mathlib.Core.Bool.{false}
use mathlib.Core.List.{List, [], ◌∷◌, ◌++◌, append_assoc}
use native.Mathlib.Omega.{arith}
use rojo.Base.Tests.{◌==◌, Bool-cases}
use rojo.Base.Text.{Bytes, onto_first, split, join_with, contains_byte}

-- The first piece, and the others.
abbrev pub head_of : List Bytes → Bytes
head_of [] = []
head_of (p ∷ ps) = p

abbrev pub tail_of : List Bytes → List Bytes
tail_of [] = []
tail_of (p ∷ ps) = ps

pub onto_first_lem : (b : ℕ) (ps : List Bytes) → onto_first b ps ≡ (b ∷ head_of ps) ∷ tail_of ps
onto_first_lem b [] = refl
onto_first_lem b (p ∷ ps) = refl

pub split_lem : (c : ℕ) (s : Bytes) → split c s ≡ head_of (split c s) ∷ tail_of (split c s)
unfolding split
split_lem c [] = refl
split_lem c (b ∷ s) = elim (Bool-cases (b == c)) [
  | inl e ↦ rw e refl
  | inr e ↦ rw (e, onto_first_lem b (split c s)) refl
]

pub split-lacking : (c : ℕ) (n : Bytes) → contains_byte c n ≡ false → split c n ≡ n ∷ []
unfolding split contains_byte
split-lacking c [] h = refl
split-lacking c (b ∷ n) h = ground (arith, split-lacking c n)

onto_first-append :
    (b c : ℕ) (s : Bytes) (ps : List Bytes)
    → onto_first b (split c s ++ ps) ≡ onto_first b (split c s) ++ ps
onto_first-append b c s ps = rw (split_lem c s) refl

-- The pieces of two texts with the byte between them.
pub split-append : (c : ℕ) (s t : Bytes) → split c (s ++ c ∷ t) ≡ split c s ++ split c t
unfolding split
split-append c [] t = ground arith
split-append c (a ∷ s) t = elim (Bool-cases (a == c)) [
  | inl e ↦ rw (e, split-append c s t) refl
  | inr e ↦ rw (e, split-append c s t) (onto_first-append a c s (split c t))
]

pub join_with-last :
    (sep x : Bytes) (xs : List Bytes) (n : Bytes)
    → join_with sep ((x ∷ xs) ++ n ∷ []) ≡ join_with sep (x ∷ xs) ++ (sep ++ n)
unfolding join_with
join_with-last sep x [] n = refl
join_with-last sep x (y ∷ ys) n = rw (join_with-last sep y ys n) (simp append_assoc)
