-- ===== src/Base/Members.antt =====
-- Texts in a list of texts.
use Prim.Native.Nat.{ℕ, ◌+◌, ◌<◌}
use mathlib.Core.Path.{◌≡◌, refl}
use mathlib.Core.Logic.{inl, inr}
use mathlib.Core.Bool.{true, false}
use mathlib.Core.List.{List, [], ◌∷◌, ◌++◌}
use native.Mathlib.Omega.{arith}
use rojo.Base.Tests.{Bool-cases, if◌then◌else◌}
use rojo.Base.Lists.{any}
use rojo.Base.Text.{Bytes, bytes_eq, eq_of_bytes_eq}

-- How often a text stands in a list.
abbrev pub occurrences : Bytes → List Bytes → ℕ
occurrences s [] = 0
occurrences s (t ∷ ts) = (if bytes_eq t s then 1 else 0) + occurrences s ts

pub occurrences-append :
    (s : Bytes) (xs ys : List Bytes)
    → occurrences s (xs ++ ys) ≡ occurrences s xs + occurrences s ys
occurrences-append s [] ys = omega arith
occurrences-append s (x ∷ xs) ys = omega (arith, occurrences-append s xs ys)

pub bytes_eq_comm : (s t : Bytes) → bytes_eq s t ≡ bytes_eq t s
bytes_eq_comm s t = elim (Bool-cases (bytes_eq s t)) [
  | inl e ↦ rw (eq_of_bytes_eq s t e) refl
  | inr e ↦ elim (Bool-cases (bytes_eq t s)) [
    | inr f ↦ rw (e, f) refl
    | inl f ↦ rw (eq_of_bytes_eq t s f) refl
  ]
]

pub occurrences-absent :
    (s : Bytes) (ts : List Bytes) → any (bytes_eq s) ts ≡ false → occurrences s ts ≡ 0
occurrences-absent s [] h = refl
occurrences-absent s (t ∷ ts) h = ground (arith, bytes_eq_comm s t, occurrences-absent s ts)

pub occurrences-present :
    (s : Bytes) (ts : List Bytes) → any (bytes_eq s) ts ≡ true → 0 < occurrences s ts
occurrences-present s [] h = cc
occurrences-present s (t ∷ ts) h = ground (arith, bytes_eq_comm s t, occurrences-present s ts)
