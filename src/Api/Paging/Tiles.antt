-- ===== src/Api/Paging/Tiles.antt =====
-- About the paging of internal/api/jobs.go: the bounds of a page, and pages that follow each other.
use rojo.Base.{
  ℕ, zero, suc, ◌+◌, ◌-◌, ◌*◌, ◌≤◌, Bytes, Bool-cases, List, [], ◌∷◌, ◌++◌, ◌≡◌, refl, sym, ap, ◌∙◌,
  inl, inr, arith, length, take, drop, length-take-le, ltb, is_empty,
}
use rojo.Errors.{ok}
use rojo.Api.Paging.{max_list_limit, atoi, limit_param, page_params, page}

module _ {ℓ} {A : Type ℓ} where
  drop_past : (n : ℕ) (xs : List A) → length xs ≤ n → drop n xs ≡ []
  drop_past zero [] h = refl
  drop_past zero (x ∷ xs) h = absurd (omega arith)
  drop_past (suc n) [] h = refl
  drop_past (suc n) (x ∷ xs) h = drop_past n xs (omega arith)

  take_past : (n : ℕ) (xs : List A) → length xs ≤ n → take n xs ≡ xs
  take_past zero [] h = refl
  take_past zero (x ∷ xs) h = absurd (omega arith)
  take_past (suc n) [] h = refl
  take_past (suc n) (x ∷ xs) h = ap (λ r. x ∷ r) (take_past n xs (omega arith))

  length-drop : (n : ℕ) (xs : List A) → length (drop n xs) ≡ length xs - n
  length-drop zero xs = omega arith
  length-drop (suc n) [] = omega arith
  length-drop (suc n) (x ∷ xs) = omega (arith, length-drop n xs)

  take-drop_all :
      (n k : ℕ) (xs : List A)
      → length xs ≤ n + k
      → take (length xs - n) (drop n xs) ≡ take k (drop n xs)
  take-drop_all n k xs h =
      take_past (length xs - n) (drop n xs) (omega (arith, length-drop n xs))
      ∙ sym (take_past k (drop n xs) (omega (arith, length-drop n xs)))

  take-nil : (n : ℕ) → take {A = A} n [] ≡ []
  take-nil zero = refl
  take-nil (suc n) = refl

  drop-nil : (n : ℕ) → drop {A = A} n [] ≡ []
  drop-nil zero = refl
  drop-nil (suc n) = refl

  page-take-drop : (l o : ℕ) (xs : List A) → page l o xs ≡ take l (drop o xs)
  unfolding page
  page-take-drop l o xs = elim (Bool-cases (ltb (length xs) o)) [
    | inl past ↦
        let far : length xs ≤ o = ground (arith, past) in
        rw (page, past)
          (rw (drop_past (length xs) xs (omega arith), drop_past o xs far)
            (take-nil _ ∙ sym (take-nil l)))
    | inr inside ↦ elim (Bool-cases (ltb (length xs) (o + l))) [
      | inl over ↦ rw (page, inside, over) (take-drop_all o l xs (ground (arith, over)))
      | inr under ↦ let width : o + l - o ≡ l = omega arith in rw (page, inside, under, width) refl
    ]
  ]

  drop-cons : (x : A) (n m : ℕ) (xs : List A) → drop (suc n + m) (x ∷ xs) ≡ drop (n + m) xs
  drop-cons x n m xs = let e : suc n + m ≡ suc (n + m) = omega arith in rw e refl

  drop-drop : (m n : ℕ) (xs : List A) → drop m (drop n xs) ≡ drop (n + m) xs
  drop-drop m zero xs = let e : 0 + m ≡ m = omega arith in rw e refl
  drop-drop m (suc n) [] = drop-nil m ∙ sym (drop-nil (suc n + m))
  drop-drop m (suc n) (x ∷ xs) = drop-drop m n xs ∙ sym (drop-cons x n m xs)

  take-add : (m n : ℕ) (xs : List A) → take (m + n) xs ≡ take m xs ++ take n (drop m xs)
  take-add zero n xs = let e : 0 + n ≡ n = omega arith in rw e refl
  take-add (suc m) n [] = take-nil (suc m + n) ∙ sym (take-nil n)
  take-add (suc m) n (x ∷ xs) =
      let e : suc m + n ≡ suc (m + n) = omega arith in rw e (ap (λ r. x ∷ r) (take-add m n xs))

  -- The first `k` pages of `l` jobs each, from the offset `o` on.
  abbrev pub pages : ℕ → ℕ → ℕ → List A → List A
  pages l o zero xs = []
  pages l o (suc k) xs = page l o xs ++ pages l (o + l) k xs

  pages-take-drop : (l o k : ℕ) (xs : List A) → pages l o k xs ≡ take (k * l) (drop o xs)
  pages-take-drop l o zero xs = let e : 0 * l ≡ 0 = grind arith in rw e refl
  pages-take-drop l o (suc k) xs =
      let e : suc k * l ≡ l + k * l = grind arith in
      rw (e, page-take-drop l o xs, pages-take-drop l (o + l) k xs, ← drop-drop l o xs)
        (sym (take-add l (k * l) (drop o xs)))

  -- Pages that follow each other give every job once and in order: as many pages as it takes to cover
  -- the list put together are the list. A page has at most as many jobs as its limit.
  pub pages_lem :
      (l k : ℕ) (xs : List A)
      → length xs ≤ k * l
      → (pages l 0 k xs ≡ xs) × ((o : ℕ) → length (page l o xs) ≤ l)
  pages_lem l k xs h = (
    pages-take-drop l 0 k xs ∙ take_past (k * l) xs h,
    λ o. rw (page-take-drop l o xs) (length-take-le l (drop o xs)),
  )

limit_param_bounds :
    (quote : Bytes → Bytes) (raw : Bytes) (l : ℕ)
    → limit_param quote raw ≡ ok l
    → (1 ≤ l) × (l ≤ max_list_limit)
unfolding limit_param
limit_param_bounds quote raw l h = elim (Bool-cases (is_empty raw)) [
  | inl e ↦ ground (arith, e, h)
  | inr e ↦ ground (arith, e, h, atoi raw)
]

-- Whatever the parameters of the request are, a page that is answered has a limit between one and 200.
pub limit_bounds :
    (quote : Bytes → Bytes) (limit offset : Bytes) {l o : ℕ}
    → page_params quote limit offset ≡ ok (l, o)
    → (1 ≤ l) × (l ≤ max_list_limit)
unfolding page_params
limit_bounds quote limit offset {l} h = ground (arith, limit_param_bounds quote limit l)
