-- ===== src/Base/Sort.antt =====
-- sort.Slice by a comparison that orders any two different elements, as a sort by insertion.
use mathlib.Core.Path.{◌≡◌, refl}
use mathlib.Core.Logic.{inl, inr}
use mathlib.Core.Bool.{Bool, true, false, ◌&&◌, ◌||◌}
use mathlib.Core.List.{List, [], ◌∷◌, Perm}
use mathlib.Core.List.Perm
use native.Mathlib.Omega.{arith}
use rojo.Base.Tests.{Bool-cases, if◌then◌else◌, ltb, ◌==◌}
use rojo.Base.Text.{Bytes}

-- The order of two byte strings.
unfoldable pub bytes_less : Bytes → Bytes → Bool
bytes_less [] [] = false
bytes_less [] (b ∷ bs) = true
bytes_less (a ∷ as') [] = false
bytes_less (a ∷ as') (b ∷ bs) = ltb a b || ((a == b) && bytes_less as' bs)

pub bytes_less_asym : (a b : Bytes) → bytes_less a b ≡ true → bytes_less b a ≡ false
unfolding bytes_less
bytes_less_asym [] [] h = refl
bytes_less_asym [] (b ∷ bs) h = refl
bytes_less_asym (a ∷ as') [] h = cc
bytes_less_asym (a ∷ as') (b ∷ bs) h = ground (arith, bytes_less_asym as' bs)

module _ {ℓ} {A : Type ℓ} (before : A → A → Bool) where
  unfoldable pub insert_by : A → List A → List A
  insert_by x [] = x ∷ []
  insert_by x (y ∷ ys) = let rest = insert_by x ys in if before y x then y ∷ rest else x ∷ y ∷ ys

  unfoldable pub sort_by : List A → List A
  sort_by [] = []
  sort_by (x ∷ xs) = insert_by x (sort_by xs)

  -- No element stands behind one that it should come before.
  abbrev pub InOrder : List A → Type 0
  InOrder [] = Unit
  InOrder (a ∷ []) = Unit
  InOrder (a ∷ b ∷ l) = (before b a ≡ false) × InOrder (b ∷ l)

  insert_by-Perm : (x : A) (l : List A) → Perm (insert_by x l) (x ∷ l)
  unfolding insert_by
  insert_by-Perm x [] = Perm.rfl
  insert_by-Perm x (y ∷ ys) = elim (Bool-cases (before y x)) [
    | inl e ↦ rw e (Perm.trans (Perm.cons y (insert_by-Perm x ys)) (Perm.swap x y ys))
    | inr e ↦ rw e (Perm.rfl)
  ]

  pub sort_by-Perm : (l : List A) → Perm (sort_by l) l
  unfolding sort_by
  sort_by-Perm [] = Perm.rfl
  sort_by-Perm (x ∷ xs) = Perm.trans (insert_by-Perm x (sort_by xs)) (Perm.cons x (sort_by-Perm xs))

  module _ (asym : (a b : A) → before a b ≡ true → before b a ≡ false) where
    insert_by-InOrder : (x : A) (l : List A) → InOrder l → InOrder (insert_by x l)
    unfolding insert_by
    insert_by-InOrder x [] o = tt
    insert_by-InOrder x (y ∷ []) o = elim (Bool-cases (before y x)) [
      | inl e ↦ rw e (asym y x e, tt)
      | inr e ↦ rw e (e, tt)
    ]
    insert_by-InOrder x (y ∷ z ∷ l) o = elim (Bool-cases (before y x)) [
      | inl e ↦
          let rest : InOrder (insert_by x (z ∷ l)) = insert_by-InOrder x (z ∷ l) o.1 in
          elim (Bool-cases (before z x)) [
            | inl f ↦ let tail : InOrder (z ∷ insert_by x l) = rw f at rest in rw (e, f) (o.0, tail)
            | inr f ↦ rw (e, f) (asym y x e, (f, o.1))
          ]
      | inr e ↦ rw e (e, o)
    ]

    pub sort_by-InOrder : (l : List A) → InOrder (sort_by l)
    unfolding sort_by
    sort_by-InOrder [] = tt
    sort_by-InOrder (x ∷ xs) = insert_by-InOrder x (sort_by xs) (sort_by-InOrder xs)
