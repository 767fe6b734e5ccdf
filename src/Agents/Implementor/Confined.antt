-- ===== src/Agents/Implementor/Confined.antt =====
-- About internal/agents/implementor/implementor.go: where an attempt may write.
use rojo.Base.{
  ℕ, ◌+◌, ◌≤◌, ◌<◌, Bytes, Bool, Bool-cases, false, List, [], ◌∷◌, none, some, ◌≡◌, refl, ◌⊎◌, inl,
  inr, arith, All, All-join, any, any-none, length, ltb, found, has_prefix, is_abs, clean, dir_of,
  dot, dot_dot, split, bytes_eq, ◌||◌,
}
use rojo.Errors.{Error, Result, ok, err}
use rojo.Agents.Types.{Operation, OpKind, write, append, delete, other_kind}
use rojo.Agents.Implementor.{
  resolve_path, check_protected, is_protected, Root, make_dir, run_op, apply_one, apply_from, apply,
  max_ops_per_attempt, max_op_size_bytes,
}
use rojo.Agents.Implementor.Segments.{clean_segments}
use rojo.Agents.Implementor.Directories.{IsInside, dir_of-IsInside}

not_protected :
    (p : Bytes) → check_protected p ≡ none → All (λ s. is_protected s ≡ false) (split b'/' p)
unfolding check_protected
not_protected p h = elim (Bool-cases (any is_protected (split b'/' p))) [
  | inl e ↦ absurd (let c : some _ ≡ none = rw e at h in cc)
  | inr e ↦ any-none is_protected _ e
]

or_false : (a b : Bool) → (a || b) ≡ false → (a ≡ false) × (b ≡ false)
or_false a b h = ground arith

accepted :
    (rel : Bytes) {p : Bytes}
    → resolve_path rel ≡ ok p
    → (p ≡ clean rel)
      × (has_prefix (clean rel) dot_dot ≡ false)
      × (is_abs (clean rel) ≡ false)
      × (check_protected (clean rel) ≡ none)
unfolding resolve_path
accepted rel h = ground arith

-- A path that is accepted is the cleaned path, and each of its segments is a name: neither empty nor
-- "..", nor protected, in any case of its letters. So it is not absolute and stays inside.
pub resolve_path-IsInside :
    (rel : Bytes) {p : Bytes} → resolve_path rel ≡ ok p → (p ≡ clean rel) × IsInside p
resolve_path-IsInside rel h =
    let (e, n, a, c) = accepted rel h in
    (
      e,
      rw e (
          All-join _ (λ s. is_protected s ≡ false) _ (split b'/' (clean rel)) (λ x q r. (q, r))
            (clean_segments rel n a) (not_protected (clean rel) c)),
    )

opens : {A : Type 0} (r : Result A) → ((e : Error) × (r ≡ err e)) ⊎ ((a : A) × (r ≡ ok a))
opens (ok a) = inr (a, refl)
opens (err e) = inl (e, refl)

module _ {W F : Type 0} (root : Root W F) (P : W → Type 0)
    (mkdir_keeps : (p : Bytes) (w : W) → IsInside p → P w → P (root.mkdir_all p w).1)
    (write_keeps : (p content : Bytes) (w : W)
      → IsInside p
      → length content ≤ max_op_size_bytes
      → P w
      → P (root.write_file p content w).1)
    (open_keeps : (p : Bytes) (w : W) → IsInside p → P w → P (root.open_append p w).1)
    (append_keeps : (p content : Bytes) (f : F) (v w : W)
      → IsInside p
      → length content ≤ max_op_size_bytes
      → (root.open_append p v).0 ≡ ok f
      → P w
      → P (root.close_file f (root.write_string f content w).1))
    (remove_keeps : (p : Bytes) (w : W) → IsInside p → P w → P (root.remove p w).1) where
  make_dir-keeps : (p : Bytes) (w : W) → IsInside p → P w → P (make_dir root p w).1
  unfolding make_dir
  make_dir-keeps p w i h = elim (Bool-cases (bytes_eq (dir_of p) dot)) [
    | inl e ↦ rw e h
    | inr e ↦ rw e (mkdir_keeps (dir_of p) w (dir_of-IsInside p i) h)
  ]

  run_op-keeps :
      (k : OpKind) (p content : Bytes) (w : W)
      → IsInside p
      → length content ≤ max_op_size_bytes
      → P w
      → P (run_op root k p content w).1
  unfolding run_op
  run_op-keeps write p content w i l h = elim (found (make_dir root p w).0) [
    | inr (e, m) ↦ rw (m, run_op) (make_dir-keeps p w i h)
    | inl m ↦ rw (m, run_op) (write_keeps p content _ i l (make_dir-keeps p w i h))
  ]
  run_op-keeps append p content w i l h = elim (opens (root.open_append p w).0) [
    | inl (e, m) ↦ rw (m, run_op) (open_keeps p w i h)
    | inr (f, m) ↦ rw (m, run_op) (append_keeps p content f w _ i l m (open_keeps p w i h))
  ]
  run_op-keeps delete p content w i l h = remove_keeps p w i h
  run_op-keeps (other_kind k) p content w i l h = h

  apply_one-keeps : (op : Operation) (w : W) → P w → P (apply_one root op w).1
  unfolding apply_one
  apply_one-keeps op w h = elim (opens (resolve_path op.path)) [
    | inl (e, m) ↦ rw (m, apply_one) h
    | inr (p, m) ↦
        rw (m, apply_one)
          (elim (Bool-cases (ltb max_op_size_bytes (length op.content))) [
            | inl large ↦ rw large h
            | inr fits ↦ rw fits (
                run_op-keeps op.kind p op.content w (resolve_path-IsInside op.path m).1
                  (ground arith) h)
          ])
  ]

  apply_from-keeps : (i : ℕ) (ops : List Operation) (w : W) → P w → P (apply_from root i ops w).1
  unfolding apply_from
  apply_from-keeps i [] w h = h
  apply_from-keeps i (op ∷ ops) w h = elim (found (apply_one root op w).0) [
    | inr (e, m) ↦ rw (m, apply_from) (apply_one-keeps op w h)
    | inl m ↦ rw (m, apply_from) (apply_from-keeps (i + 1) ops _ (apply_one-keeps op w h))
  ]

  -- Apply keeps every property of the world that the operations of the root keep at paths that are
  -- inside and with contents of at most MaxOpSizeBytes. So nothing is written elsewhere, whatever the operations name. An attempt of more
  -- than MaxOpsPerAttempt operations fails and does nothing at all.
  pub apply-keeps :
      (open_root_keeps : (p : Bytes) (w : W) → P w → P (root.open_root p w).1)
      (close_root_keeps : (w : W) → P w → P (root.close_root w)) (workspace : Bytes)
      (ops : List Operation) (w : W)
      → P w
      → P (apply root workspace ops w).1
        × (max_ops_per_attempt < length ops
            → ((e : Error) × (apply root workspace ops w ≡ (some e, w))))
  unfolding apply
  apply-keeps open_root_keeps close_root_keeps workspace [] w h = (h, λ m. absurd (omega arith))
  apply-keeps open_root_keeps close_root_keeps workspace (op ∷ ops) w h =
      elim (Bool-cases (ltb max_ops_per_attempt (length (op ∷ ops)))) [
        | inl many ↦ rw many (h, λ m. (_, refl))
        | inr few ↦ rw few (elim (found (root.open_root workspace w).0) [
          | inr (e, m) ↦ rw m (open_root_keeps workspace w h, λ m. absurd (ground arith))
          | inl m ↦ rw m (
            close_root_keeps _ (apply_from-keeps 0 (op ∷ ops) _ (open_root_keeps workspace w h)),
            λ m. absurd (ground arith),
          )
        ])
      ]
