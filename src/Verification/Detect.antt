-- ===== src/Verification/Detect.antt =====
-- internal/verification/detect.go: the checks that fit the manifests of a worktree.
pub mod Presets
use rojo.Base.{
  ℕ, Bytes, Bool, true, false, not, ◌||◌, List, [], ◌∷◌, ◌++◌, bytes, bytes_eq, is_empty, join_path,
  trim_space, Option, none, some, if◌then◌else◌,
}
use rojo.Errors.{Error, error_text, Result, ok, err}
use rojo.Verification.Report.{Outcome, Report}
use rojo.Verification.Runner.{Check, default_checks, Host, run_checks}

abbrev pub auto_commands : List Bytes
unfolding bytes
auto_commands = bytes "go" ∷ bytes "gofmt" ∷ bytes "npm" ∷ bytes "pytest" ∷ bytes "cargo" ∷ []

abbrev pub npm_placeholder : Bytes
unfolding bytes
npm_placeholder = bytes "echo \"Error: no test specified\" && exit 1"

-- What detection finds: os.Stat, exec.LookPath, and scripts.test of a manifest that os.ReadFile and
-- json.Unmarshal took in.
pub record Tools : Type 0 where
  pub exists : Bytes → Bool
  pub installed : Bytes → Bool
  pub read_script : Bytes → Result Bytes

unfoldable pub npm_test_script : Tools → Bytes → Result Bytes
npm_test_script t path = elim (t.read_script path) [
  | err e ↦ err e
  | ok script ↦ ok (trim_space script)
]

-- A note of a check that is not run, and a manifest that cannot be read.
abbrev pub note_result : Bytes → Bytes → Outcome
note_result name text = record {
  check = name;
  passed = true;
  output = [];
  duration = 0;
  note = text;
}

abbrev pub failed_result : Bytes → Bytes → Outcome
failed_result name text = record {
  check = name;
  passed = false;
  output = text;
  duration = 0;
  note = [];
}

abbrev pub Found : Type 0
Found = List Check × List Outcome

abbrev plain_check : Bytes → Bytes → List Bytes → List (ℕ × Bytes) → Check
plain_check name command args allow = record {
  name = name;
  command = command;
  args = args;
  fail_on_output = false;
  allow_exit = allow;
  note_when = none;
}

unfoldable pub detect_go : Tools → Bytes → Found
unfolding bytes
detect_go t dir =
    if not (t.exists (join_path dir (bytes "go.mod")))
    then ([], [])
    else if t.installed (bytes "go")
    then (default_checks, [])
    else (
      [],
      note_result (bytes "go") (
            bytes
              "go.mod found but the Go toolchain is not installed on this host; Go checks skipped")
          ∷ [],
    )

unfoldable pub detect_npm : Tools → Bytes → Found
unfolding bytes plain_check
detect_npm t dir =
    let manifest = join_path dir (bytes "package.json") in
    if not (t.exists manifest) then ([], []) else elim (npm_test_script t manifest) [
      | err e ↦ (
        [],
        failed_result (bytes "npm") (bytes "package.json is not valid JSON: " ++ error_text e) ∷ [],
      )
      | ok script ↦
          if is_empty script || bytes_eq script npm_placeholder
          then (
            [],
            note_result (bytes "npm")
                  (bytes "package.json has no real test script; Node checks skipped")
                ∷ [],
          )
          else if not (t.installed (bytes "npm"))
          then (
            [],
            note_result (bytes "npm") (
                  bytes
                    "package.json found but npm is not installed on this host; Node checks skipped")
                ∷ [],
          )
          else (
            plain_check (bytes "npm test") (bytes "npm") (bytes "test" ∷ bytes "--silent" ∷ []) []
                ∷ [],
            [],
          )
    ]

unfoldable pub detect_python : Tools → Bytes → Found
unfolding bytes plain_check
detect_python t dir =
    if not (
      t.exists (join_path dir (bytes "pyproject.toml"))
      || (t.exists (join_path dir (bytes "requirements.txt"))
          || t.exists (join_path dir (bytes "setup.py"))))
    then ([], [])
    else if t.installed (bytes "pytest")
    then (
      plain_check (bytes "pytest") (bytes "pytest") (bytes "-q" ∷ [])
            ((5, bytes "no tests collected: the gate ran nothing for Python") ∷ [])
          ∷ [],
      [],
    )
    else (
      [],
      note_result (bytes "pytest") (
            bytes
              "Python manifest found but pytest is not installed on this host; Python checks skipped")
          ∷ [],
    )

unfoldable pub detect_cargo : Tools → Bytes → Found
unfolding bytes plain_check
detect_cargo t dir =
    if not (t.exists (join_path dir (bytes "Cargo.toml")))
    then ([], [])
    else if t.installed (bytes "cargo")
    then (plain_check (bytes "cargo test") (bytes "cargo") (bytes "test" ∷ []) [] ∷ [], [])
    else (
      [],
      note_result (bytes "cargo")
            (bytes "Cargo.toml found but cargo is not installed on this host; Rust checks skipped")
          ∷ [],
    )

-- `recognised`
unfoldable pub recognised : Tools → Bytes → Bool
unfolding bytes
recognised t dir =
    t.exists (join_path dir (bytes "go.mod"))
    || (t.exists (join_path dir (bytes "package.json"))
        || (t.exists (join_path dir (bytes "pyproject.toml"))
            || (t.exists (join_path dir (bytes "requirements.txt"))
                || (t.exists (join_path dir (bytes "setup.py"))
                    || t.exists (join_path dir (bytes "Cargo.toml"))))))

unfoldable pub detect_none : Tools → Bytes → List Outcome
unfolding bytes recognised
detect_none t dir =
    if recognised t dir
    then []
    else note_result (bytes "detect") (
        bytes
          "no recognised toolchain (go.mod, package.json, pyproject.toml, requirements.txt, setup.py, Cargo.toml): no checks were run")
      ∷ []

abbrev pub ◌and◌ : Found → Found → Found
◌and◌ (cs, ns) (ds, ms) = (cs ++ ds, ns ++ ms)

unfoldable pub detect : Tools → Bytes → Found
unfolding ◌and◌
detect t dir =
    let (checks, notes) =
      ◌and◌ (detect_go t dir)
        (◌and◌ (detect_npm t dir) (◌and◌ (detect_python t dir) (detect_cargo t dir))) in
    (checks, notes ++ detect_none t dir)

-- AutoRunner.Verify, at what detection finds.
unfoldable pub auto_verify : {W : Type 0} → Host W → Tools → Bytes → W → (Report × Option Error) × W
auto_verify h t dir w = let (checks, notes) = detect t dir in run_checks h dir checks notes w
