-- ===== src/Gate/Cleanup.antt =====
-- About internal/mcpserver/gate.go: what a call leaves behind, and what a pass means.
use rojo.Base.{
  ℕ, Bytes, Bool, Bool-cases, true, not, ◌&&◌, List, Option, none, some, ◌≡◌, refl, sym, ap, ◌∙◌,
  ◌⊎◌, inl, inr, found, arith, is_empty, is_some, trim_space,
}
use rojo.Errors.{Error, Result, ok, err}
use rojo.Agents.Types.{Operation}
use rojo.Agents.Implementor.{apply}
use rojo.Verification.Report.{Report, all_passed}
use rojo.Orchestration.Candidate.{Workspace}
use rojo.Orchestration.Env.{Call, returns, panics}
use rojo.Gate.{
  Gate, VerifyRequest, VerifyResult, to_operations, result_of, with_diff, limit_or,
  default_max_check_output, default_max_diff, new_worktree_id, check_change, try_change,
  remove_checkout, verify_change,
}

-- How a call that may fail or panic ends.
ends :
    {A : Type 0} (c : Call (Result A))
    → ((v : Bytes) × (c ≡ panics v))
      ⊎ ((e : Error) × (c ≡ returns (err e)))
      ⊎ ((a : A) × (c ≡ returns (ok a)))
ends (panics v) = inl (v, refl)
ends (returns (err e)) = inr (inl (e, refl))
ends (returns (ok a)) = inr (inr (a, refl))

answers : {A : Type 0} (c : Call A) → ((v : Bytes) × (c ≡ panics v)) ⊎ ((a : A) × (c ≡ returns a))
answers (panics v) = inl (v, refl)
answers (returns a) = inr (a, refl)

opened_result : {A : Type 0} (r : Result A) → ((e : Error) × (r ≡ err e)) ⊎ ((a : A) × (r ≡ ok a))
opened_result (ok a) = inr (a, refl)
opened_result (err e) = inl (e, refl)

module _ {W F : Type 0} (g : Gate W F) (P : W → Type 0) (Q : Workspace → W → Type 0)
    (random_keeps : (w : W) → P w → P (g.random w).1)
    (create_keeps : (id repo : Bytes) (w : W)
      → P w
      → ((ws : Workspace) → (g.create id repo w).0 ≡ returns (ok ws) → Q ws (g.create id repo w).1)
        × (((ws : Workspace) → (g.create id repo w).0 ≡ returns (ok ws) → ⊥)
            → P (g.create id repo w).1))
    (apply_keeps : (ws : Workspace) (ops : List Operation) (w : W)
      → Q ws w
      → Q ws (apply g.root ws.path ops w).1)
    (checks_keep : (ws : Workspace) (w : W) → Q ws w → Q ws (g.run_checks ws.path w).1)
    (diff_keeps : (ws : Workspace) (w : W) → Q ws w → Q ws (g.diff_of ws w).1)
    (cleanup_restores : (ws : Workspace) (w : W) → Q ws w → P (g.cleanup ws w).1) where
  check_change-keeps : (ws : Workspace) (w : W) → Q ws w → Q ws (check_change g ws w).1
  unfolding check_change
  check_change-keeps ws w q = elim (answers (g.run_checks ws.path w).0) [
    | inl (v, m) ↦ rw (m, check_change) (checks_keep ws w q)
    | inr (a, m) ↦ rw (m, check_change) (diff_keeps ws _ (checks_keep ws w q))
  ]

  try_change-keeps :
      (ws : Workspace) (ops : List Operation) (w : W) → Q ws w → Q ws (try_change g ws ops w).1
  unfolding try_change
  try_change-keeps ws ops w q = elim (found (apply g.root ws.path ops w).0) [
    | inl m ↦ rw (m, try_change) (check_change-keeps ws _ (apply_keeps ws ops w q))
    | inr (e, m) ↦ rw (m, try_change) (apply_keeps ws ops w q)
  ]

  -- A call of Verify keeps what holds of the world without its checkout, whatever the request, and
  -- wherever a collaborator fails or panics: from the moment that the checkout is there, every way out
  -- leads through its removal, and none of the ways before removes anything.
  pub verify_change-cleans : (req : VerifyRequest) (w : W) → P w → P (verify_change g req w).1
  unfolding verify_change remove_checkout new_worktree_id
  verify_change-cleans req w p = elim (Bool-cases (is_empty (trim_space req.repo_path))) [
    | inl e ↦ rw (e, verify_change) p
    | inr e ↦
        rw (e, verify_change)
          (elim (opened_result (to_operations g.root.quote 0 req.operations)) [
            | inl (x, m) ↦ rw m p
            | inr (ops, m) ↦
                let made = g.create (new_worktree_id g w).0 req.repo_path (new_worktree_id g w).1 in
                let (here, gone) =
                  create_keeps (new_worktree_id g w).0 req.repo_path (new_worktree_id g w).1
                    (random_keeps w p) in
                rw m (elim (ends made.0) [
                  | inl (v, c) ↦ rw c (gone (λ ws h. absurd (let q = h in cc)))
                  | inr (inl (x, c)) ↦ rw c (gone (λ ws h. absurd (let q = h in cc)))
                  | inr (inr (ws, c)) ↦
                      rw c (cleanup_restores ws _ (try_change-keeps ws ops made.1 (here ws c)))
                ])
          ])
  ]

with_diff-passed :
    (max : ℕ) (diff : Bytes) (r : VerifyResult) → (with_diff max diff r).passed ≡ r.passed
unfolding with_diff
with_diff-passed max diff r = ground arith

both : (o : Option Error) (b : Bool) → not (is_some o) && b ≡ true → (o ≡ none) × (b ≡ true)
both none b h = (refl, h)
both (some e) b h = absurd (let q = h in cc)

module _ {W F : Type 0} (g : Gate W F) where
  -- The operations could be applied in the checkout, and its checks ran and passed.
  abbrev pub Proven : Workspace → List Operation → W → Type 0
  Proven ws ops w =
      let applied = apply g.root ws.path ops w in
      (applied.0 ≡ none)
      × ((report : Report) × ((g.run_checks ws.path applied.1).0 ≡ returns (report, none))
          × (all_passed report ≡ true))

  -- What the result of the checks says of the report.
  check_change-passed :
      (ws : Workspace) (w : W) (r : VerifyResult) (a : Report × Option Error)
      → (g.run_checks ws.path w).0 ≡ returns a
      → (check_change g ws w).0 ≡ returns (ok r)
      → r.passed ≡ not (is_some a.1) && all_passed a.0
  unfolding check_change result_of
  check_change-passed ws w r a c h =
      let first = result_of (limit_or g.max_check_output default_max_check_output) a in
      let diffed = λ (d : Bytes). with_diff (limit_or g.max_diff default_max_diff) d first in
      elim (ends (g.diff_of ws (g.run_checks ws.path w).1).0) [
        | inl (v, d) ↦ absurd (let q = rw (c, check_change, d) at h in cc)
        | inr (inl (e, d)) ↦
            let q = rw (c, check_change, d) at h in
            let same : first ≡ r = cc in sym (ap (λ (x : VerifyResult). x.passed) same)
        | inr (inr (diff, d)) ↦
            let q = rw (c, check_change, d) at h in
            let same : diffed diff ≡ r = cc in
            sym (ap (λ (x : VerifyResult). x.passed) same)
            ∙ with_diff-passed (limit_or g.max_diff default_max_diff) diff first
      ]

  try_change-Proven :
      (ws : Workspace) (ops : List Operation) (w : W) (r : VerifyResult)
      → (try_change g ws ops w).0 ≡ returns (ok r)
      → r.passed ≡ true
      → Proven ws ops w
  unfolding try_change check_change result_of
  try_change-Proven ws ops w r h y =
      let applied = apply g.root ws.path ops w in
      elim (found applied.0) [
        | inr (e, m) ↦ absurd (let q = rw (m, try_change) at h in cc)
        | inl m ↦ elim (answers (g.run_checks ws.path applied.1).0) [
          | inl (v, c) ↦ absurd (let q = rw (m, try_change, c, check_change) at h in cc)
          | inr ((report, problem), c) ↦
              let p =
                check_change-passed ws applied.1 r (report, problem) c (rw (m, try_change) at h) in
              let (none', fine) = both problem (all_passed report) (sym p ∙ y) in
              (m, (report, c ∙ ap (λ o. returns (report, o)) none', fine))
        ]
      ]

  removed :
      (ws : Workspace) (a : Call (Result VerifyResult) × W) (r : VerifyResult)
      → (remove_checkout g ws a).0 ≡ returns (ok r)
      → a.0 ≡ returns (ok r)
  unfolding remove_checkout
  removed ws a r h = ground arith

  -- A result that says that the change passed comes from a checkout in which every operation of the
  -- request was applied without an error and the checks ran to their end with a report that passes.
  pub verify_change-Proven :
      (req : VerifyRequest) (w : W) (r : VerifyResult)
      → (verify_change g req w).0 ≡ returns (ok r)
      → r.passed ≡ true
      → (ops : List Operation) × (ws : Workspace) × (to_operations g.root.quote 0 req.operations
          ≡ ok ops)
        × ((g.create (new_worktree_id g w).0 req.repo_path (new_worktree_id g w).1).0
            ≡ returns (ok ws))
        × Proven ws ops (g.create (new_worktree_id g w).0 req.repo_path (new_worktree_id g w).1).1
  unfolding verify_change remove_checkout
  verify_change-Proven req w r h y = elim (Bool-cases (is_empty (trim_space req.repo_path))) [
    | inl e ↦ absurd (let q = rw (e, verify_change) at h in cc)
    | inr e ↦ elim (opened_result (to_operations g.root.quote 0 req.operations)) [
      | inl (x, m) ↦ absurd (let q = rw (e, verify_change, m) at h in cc)
      | inr (ops, m) ↦
          let made = g.create (new_worktree_id g w).0 req.repo_path (new_worktree_id g w).1 in
          elim (ends made.0) [
            | inl (v, c) ↦ absurd (let q = rw (e, verify_change, m, c) at h in cc)
            | inr (inl (x, c)) ↦ absurd (let q = rw (e, verify_change, m, c) at h in cc)
            | inr (inr (ws, c)) ↦
                let q = rw (e, verify_change, m, c) at h in
                (ops, ws, m, c, try_change-Proven ws ops made.1 r (removed ws _ r q) y)
          ]
    ]
  ]
