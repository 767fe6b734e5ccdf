-- ===== src/Verification/Detect/Presets.antt =====
-- About internal/verification/detect.go: what detection chooses, and what its report means.
use rojo.Base.{
  ℕ, ◌+◌, ◌<◌, Bytes, Bool, Bool-cases, true, false, not, ◌&&◌, ◌||◌, List, [], ◌∷◌, ◌++◌, ◌≡◌, ◌↔◌,
  inl, inr, arith, All, All-append, bytes, bytes_eq, length, length-append, join_path,
}
use rojo.Errors.{ok, err}
use rojo.Execution.{allows}
use rojo.Verification.Report.{Outcome, all_passed_in}
use rojo.Verification.Runner.{Check, Host}
use rojo.Verification.Runner.Judged.{Passes, AllClean, run_checks-Passes}
use rojo.Verification.Detect.{
  Tools, Found, auto_commands, npm_test_script, detect_go, detect_npm, detect_python, detect_cargo,
  recognised, detect_none, detect, auto_verify,
}

abbrev size : Found → ℕ
size f = length f.0 + length f.1

module _ (t : Tools) (dir : Bytes) where
  abbrev has : Bytes → Bool
  has name = t.exists (join_path dir name)

  size_go : has (bytes "go.mod") ≡ true → 0 < size (detect_go t dir)
  unfolding detect_go
  size_go e = ground arith

  size_npm : has (bytes "package.json") ≡ true → 0 < size (detect_npm t dir)
  unfolding detect_npm
  size_npm e = ground arith

  size_python :
      has (bytes "pyproject.toml") || (has (bytes "requirements.txt") || has (bytes "setup.py"))
        ≡ true
      → 0 < size (detect_python t dir)
  unfolding detect_python
  size_python e = ground arith

  size_cargo : has (bytes "Cargo.toml") ≡ true → 0 < size (detect_cargo t dir)
  unfolding detect_cargo
  size_cargo e = ground arith

  abbrev IsAllowed : Check → Type 0
  IsAllowed c = allows auto_commands c.command ≡ true

  IsAllowed-go : All IsAllowed (detect_go t dir).0
  unfolding detect_go allows bytes bytes_eq
  IsAllowed-go = ground arith

  IsAllowed-npm : All IsAllowed (detect_npm t dir).0
  unfolding detect_npm allows bytes bytes_eq
  IsAllowed-npm = ground arith

  IsAllowed-python : All IsAllowed (detect_python t dir).0
  unfolding detect_python allows bytes bytes_eq
  IsAllowed-python = ground arith

  IsAllowed-cargo : All IsAllowed (detect_cargo t dir).0
  unfolding detect_cargo allows bytes bytes_eq
  IsAllowed-cargo = ground arith

  -- A package.json that cannot be read as JSON.
  abbrev pub broken_manifest : Bool
  broken_manifest =
      t.exists (join_path dir (bytes "package.json"))
      && elim (t.read_script (join_path dir (bytes "package.json"))) [ err e ↦ true | ok s ↦ false ]

  notes_go : all_passed_in (detect_go t dir).1 ≡ true
  unfolding detect_go all_passed_in
  notes_go = ground arith

  notes_npm : all_passed_in (detect_npm t dir).1 ≡ not broken_manifest
  unfolding detect_npm npm_test_script all_passed_in
  notes_npm = ground arith

  notes_python : all_passed_in (detect_python t dir).1 ≡ true
  unfolding detect_python all_passed_in
  notes_python = ground arith

  notes_cargo : all_passed_in (detect_cargo t dir).1 ≡ true
  unfolding detect_cargo all_passed_in
  notes_cargo = ground arith

  notes_none : all_passed_in (detect_none t dir) ≡ true
  unfolding detect_none all_passed_in
  notes_none = ground arith

all_passed_in-append :
    (rs qs : List Outcome) → all_passed_in (rs ++ qs) ≡ all_passed_in rs && all_passed_in qs
unfolding all_passed_in
all_passed_in-append [] qs = ground arith
all_passed_in-append (r ∷ rs) qs = ground (arith, all_passed_in-append rs qs)

module _ (t : Tools) (dir : Bytes) where
  notes_pass : all_passed_in (detect t dir).1 ≡ not (broken_manifest t dir)
  unfolding detect
  notes_pass =
      simp
        (
          all_passed_in-append,
          notes_go t dir,
          notes_npm t dir,
          notes_python t dir,
          notes_cargo t dir,
          notes_none t dir,
        )
        (ground arith)

  none_recognised : recognised t dir ≡ false → 0 < length (detect_none t dir)
  unfolding detect_none
  none_recognised e = rw e (omega arith)

  some_recognised :
      recognised t dir ≡ true
      → 0
        < size (detect_go t dir)
          + (size (detect_npm t dir) + (size (detect_python t dir) + size (detect_cargo t dir)))
  unfolding recognised
  some_recognised e =
      ground (arith, size_go t dir, size_npm t dir, size_python t dir, size_cargo t dir)

  some_result : 0 < length (detect t dir).0 + length (detect t dir).1
  unfolding detect
  some_result = simp (length-append) (elim (Bool-cases (recognised t dir)) [
    | inl e ↦ omega (arith, some_recognised e)
    | inr e ↦ omega (arith, none_recognised e)
  ])

-- Detection only chooses commands of AutoCommands, whatever the worktree holds: an allowlist of these
-- refuses none of its checks. The notes that it reports beside the checks pass unless there is a
-- package.json that cannot be read. There is always a check to run or a note, so a report is never
-- empty.
pub detect_lem :
    (t : Tools) (dir : Bytes)
    → All (λ c. allows auto_commands c.command ≡ true) (detect t dir).0
      × (all_passed_in (detect t dir).1 ≡ not (broken_manifest t dir))
      × (0 < length (detect t dir).0 + length (detect t dir).1)
unfolding detect
detect_lem t dir = (
  All-append _ _ _ (IsAllowed-go t dir) (
      All-append _ _ _ (IsAllowed-npm t dir)
        (All-append _ _ _ (IsAllowed-python t dir) (IsAllowed-cargo t dir))),
  notes_pass t dir,
  some_result t dir,
)

-- AutoRunner.Verify returns no error and a report that passes exactly when no package.json is broken
-- and each check that detection chose has been reached before the context ended, was run and ended
-- clean.
pub auto_verify-Passes :
    {W : Type 0} (h : Host W) (t : Tools) (dir : Bytes) (w : W)
    → Passes h dir (auto_verify h t dir w)
      ↔ ((broken_manifest t dir ≡ false) × AllClean h dir (detect t dir).0 w)
unfolding auto_verify
auto_verify-Passes h t dir w =
    let notes = (detect_lem t dir).1 in
    let checks = run_checks-Passes h dir (detect t dir).0 (detect t dir).1 w in
    (
      λ p. (ground (arith, notes, (checks.0 p).0), (checks.0 p).1),
      λ (b, a). checks.1 (ground (arith, notes), a),
    )
