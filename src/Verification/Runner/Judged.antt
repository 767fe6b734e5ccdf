-- ===== src/Verification/Runner/Judged.antt =====
-- About internal/verification/runner.go: what a report that passes says of the commands.
use rojo.Base.{
  ℕ, ◌-◌, ◌/◌, Bytes, Bool, Bool-cases, true, false, not, ◌&&◌, List, [], ◌∷◌, ◌++◌, Option, none,
  some, ◌≡◌, ◌≢◌, refl, ◌⊎◌, ◌↔◌, inl, inr, found, arith, ==_iff, is_empty, trim_space, ◌==◌,
}
use rojo.Errors.{Error}
use rojo.Execution.{CommandResult, ExitCode, exited, killed}
use rojo.Verification.Report.{Outcome, Report, all_passed, all_passed_in}
use rojo.Verification.Runner.{
  Check, tolerated, judge_exit, outcome_of, Host, run_check, run_checks, verify,
}

-- A command that ended with the status `x`, and printed nothing where the check forbids that; or with
-- one that AllowExit names.
abbrev IsCleanAt : Check → CommandResult → ExitCode → Type 0
IsCleanAt c r killed = ⊥
IsCleanAt c r (exited code) =
    ((code ≡ 0) × ((c.fail_on_output ≡ false) ⊎ (is_empty (trim_space r.stdout) ≡ true)))
    ⊎ ((code ≢ 0) × (note : Bytes) × (tolerated code c.allow_exit ≡ some note))

abbrev pub IsClean : Check → CommandResult → Type 0
IsClean c r = IsCleanAt c r r.exit_code

quiet : (a b : Bool) → (not (a && not b) ≡ true) ↔ ((a ≡ false) ⊎ (b ≡ true))
quiet false b = (λ h. inl refl, λ h. refl)
quiet true true = (λ h. inr refl, λ h. refl)
quiet true false = (λ h. cc, λ h. elim h [ inl e ↦ cc | inr e ↦ cc ])

judge_exit-clean :
    (c : Check) (r : CommandResult) (x : ExitCode) → ((judge_exit c r x).0 ≡ true) ↔ IsCleanAt c r x
unfolding judge_exit
judge_exit-clean c r killed = (λ h. cc, λ h. elim h [ ])
judge_exit-clean c r (exited code) = elim (Bool-cases (code == 0)) [
  | inl e ↦
      let zero_code = (==_iff code 0).0 e in
      rw e (
        λ h. inl (zero_code, (quiet c.fail_on_output (is_empty (trim_space r.stdout))).0 h),
        λ h. elim h [
          | inl (z, q) ↦ (quiet c.fail_on_output (is_empty (trim_space r.stdout))).1 q
          | inr (n, note, m) ↦ absurd (n zero_code)
        ],
      )
  | inr e ↦
      let other : code ≢ 0 = ground arith in
      rw e (elim (found (tolerated code c.allow_exit)) [
        | inl m ↦ rw m (
          λ h. absurd (let q = h in cc),
          λ h. elim h [
            | inl (z, q) ↦ absurd (other z)
            | inr (n, note, q) ↦ absurd (let q' = q in cc)
          ],
        )
        | inr (note, m) ↦ rw m (λ h. inr (other, note, refl), λ h. refl)
      ])
]

outcome_of-IsClean :
    (c : Check) (took : ℕ) (r : CommandResult) (problem : Option Error)
    → ((outcome_of c took r problem).passed ≡ true) ↔ ((problem ≡ none) × IsClean c r)
unfolding outcome_of
outcome_of-IsClean c took r (some e) = (λ h. cc, λ h. cc)
outcome_of-IsClean c took r none = (
  λ h. (refl, (judge_exit-clean c r r.exit_code).0 h),
  λ h. (judge_exit-clean c r r.exit_code).1 h.1,
)

passed_snoc :
    (rs : List Outcome) (r : Outcome)
    → (all_passed_in (rs ++ r ∷ []) ≡ true) ↔ ((all_passed_in rs ≡ true) × (r.passed ≡ true))
unfolding all_passed_in
passed_snoc [] r = (λ h. ground arith, λ h. ground arith)
passed_snoc (q ∷ rs) r =
    (λ h. ground (arith, (passed_snoc rs r).0), λ h. ground (arith, (passed_snoc rs r).1))

module _ {W : Type 0} (h : Host W) (dir : Bytes) where
  -- Every check is reached before the context ends, its command runs without an error, and it ends
  -- clean; each starts in the world that the one before it left.
  abbrev pub AllClean : List Check → W → Type 0
  AllClean [] w = Unit
  AllClean (c ∷ cs) w =
      let v = (h.now (h.ctx_error w).1).1 in
      let ran = h.run dir c.command c.args v in
      ((h.ctx_error w).0 ≡ none)
      × (ran.0.1 ≡ none)
      × IsClean c ran.0.0
      × AllClean cs (h.now ran.1).1

  abbrev pub Passes : (Report × Option Error) × W → Type 0
  Passes v = (v.0.1 ≡ none) × (all_passed v.0.0 ≡ true)

  pub run_checks-Passes :
      (cs : List Check) (rs : List Outcome) (w : W)
      → Passes (run_checks h dir cs rs w) ↔ ((all_passed_in rs ≡ true) × AllClean cs w)
  unfolding run_checks run_check all_passed
  run_checks-Passes [] rs w = (λ p. (p.1, tt), λ p. (refl, p.0))
  run_checks-Passes (c ∷ cs) rs w =
      let ran = h.run dir c.command c.args (h.now (h.ctx_error w).1).1 in
      elim (found (h.ctx_error w).0) [
        | inr (e, m) ↦
            rw (m, run_checks) (λ p. absurd (let q = p.0 in cc), λ p. absurd (let q = p.1.0 in cc))
        | inl m ↦
            let took = ((h.now ran.1).0 - (h.now (h.ctx_error w).1).0) / 1000000 in
            let o = outcome_of c took ran.0.0 ran.0.1 in
            let clean = outcome_of-IsClean c took ran.0.0 ran.0.1 in
            let next = run_checks-Passes cs (rs ++ o ∷ []) (h.now ran.1).1 in
            rw (m, run_checks)
              (
                λ p.
                    let (before, rest) = next.0 p in
                    let (b, d) = (passed_snoc rs o).0 before in
                    let (none', fine) = clean.0 d in (b, (refl, none', fine, rest)),
                λ (b, (e, none', fine, rest)).
                    next.1 ((passed_snoc rs o).1 (b, clean.1 (none', fine)), rest),
              )
      ]

-- Verify returns no error and a report that passes exactly when there is a check and, one check after
-- the other, the context has not ended, the command ran without an error, and it exited either with 0
-- (with nothing on its standard output where FailOnOutput is set) or with a status that AllowExit
-- names. A check that could not be run never counts as passed.
pub verify-Passes :
    {W : Type 0} (h : Host W) (cs : List Check) (dir : Bytes) (w : W)
    → Passes h dir (verify h cs dir w) ↔ ((cs ≢ []) × AllClean h dir cs w)
unfolding verify all_passed_in
verify-Passes h [] dir w = (λ (e, p). absurd (let q = e in cc), λ (n, a). absurd (n refl))
verify-Passes h (c ∷ cs) dir w = (
  λ p. (λ e. cc, ((run_checks-Passes h dir (c ∷ cs) [] w).0 p).1),
  λ (n, a). (run_checks-Passes h dir (c ∷ cs) [] w).1 (refl, a),
)
