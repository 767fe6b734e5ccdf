-- ===== src/Verification/Runner.antt =====
-- internal/verification/runner.go: the checks, and the Runner of a fixed list of them.
pub mod Judged
use rojo.Base.{
  ℕ, ◌-◌, ◌/◌, Bytes, Bool, true, false, not, ◌&&◌, List, [], ◌∷◌, ◌++◌, Option, none, some, bytes,
  bytes_eq, contains, decimal, has_prefix, is_empty, join_with, keep, length, leb, take, trim_space,
  any, split, ◌==◌, if◌then◌else◌,
}
use rojo.Errors.{Error, sentinel, wrap, no_checks, error_text}
use rojo.Execution.{CommandResult, CommandRunner, ExitCode, exited, killed}
use rojo.Verification.Report.{Outcome, Report, empty_report}

abbrev pub max_output_bytes : ℕ
max_output_bytes = 65536

pub record Check : Type 0 where
  pub name : Bytes
  pub command : Bytes
  pub args : List Bytes
  pub fail_on_output : Bool
  pub allow_exit : List (ℕ × Bytes)
  pub note_when : Option (Bytes → Bytes)

-- The look-up in AllowExit.
unfoldable pub tolerated : ℕ → List (ℕ × Bytes) → Option Bytes
tolerated code [] = none
tolerated code ((c, note) ∷ m) = if c == code then some note else tolerated code m

unfoldable pub go_test_note : Bytes → Bytes
unfolding bytes contains split has_prefix
go_test_note output =
    if not (contains output (bytes "[no test files]"))
    then []
    else if any (λ line. has_prefix line (bytes "ok")) (split 10 output)
    then []
    else bytes "no test files found: the gate proves compilation only"

abbrev pub default_checks : List Check
unfolding bytes
default_checks =
    record {
      name = bytes "gofmt";
      command = bytes "gofmt";
      args = bytes "-l" ∷ bytes "." ∷ [];
      fail_on_output = true;
      allow_exit = [];
      note_when = none;
    }
    ∷ record {
      name = bytes "go vet";
      command = bytes "go";
      args = bytes "vet" ∷ bytes "./..." ∷ [];
      fail_on_output = false;
      allow_exit = [];
      note_when = none;
    }
    ∷ record {
      name = bytes "go test";
      command = bytes "go";
      args = bytes "test" ∷ bytes "./..." ∷ [];
      fail_on_output = false;
      allow_exit = [];
      note_when = some go_test_note;
    }
    ∷ []

unfoldable pub join_non_empty : List Bytes → Bytes
join_non_empty parts = join_with (10 ∷ []) (keep (λ p. not (is_empty (trim_space p))) parts)

unfoldable pub combine_output : CommandResult → Bytes
unfolding join_non_empty
combine_output r = join_non_empty (trim_space r.stdout ∷ trim_space r.stderr ∷ [])

unfoldable pub truncate : Bytes → Bytes
unfolding bytes
truncate s =
    if leb (length s) max_output_bytes
    then s
    else take max_output_bytes s ++ (10 ∷ bytes "... output truncated")

-- The `switch` of runCheck: whether the check has passed, and its note.
unfoldable pub judge_exit : Check → CommandResult → ExitCode → Bool × Bytes
judge_exit c r killed = (false, [])
judge_exit c r (exited code) =
    if code == 0
    then (not (c.fail_on_output && not (is_empty (trim_space r.stdout))), [])
    else elim (tolerated code c.allow_exit) [ none ↦ (false, []) | some note ↦ (true, note) ]

-- The note of a check that has passed, by NoteWhen if it has none yet.
unfoldable pub noted : Check → Bool → Bytes → Bytes → Bytes
noted c passed note output =
    if passed && is_empty note then elim c.note_when [ none ↦ note | some f ↦ f output ] else note

unfoldable pub outcome_of : Check → ℕ → CommandResult → Option Error → Outcome
unfolding judge_exit noted truncate combine_output join_non_empty
outcome_of c took r (some e) = record {
  check = c.name;
  passed = false;
  output = truncate (join_non_empty (truncate (combine_output r) ∷ error_text e ∷ []));
  duration = took;
  note = [];
}
outcome_of c took r none =
    let (passed, note) = judge_exit c r r.exit_code in
    let output = truncate (combine_output r) in
    record {
      check = c.name;
      passed = passed;
      output = output;
      duration = took;
      note = noted c passed note output;
    }

-- What the checks are run with: `now` in nanoseconds, and Err of the context.
pub record Host (W : Type 0) : Type 0 where
  pub run : CommandRunner W
  pub now : W → ℕ × W
  pub ctx_error : W → Option Error × W

module _ {W : Type 0} (h : Host W) where
  unfoldable pub run_check : Bytes → Check → W → Outcome × W
  unfolding outcome_of
  run_check dir c w =
      let (start, w1) = h.now w in
      let ((r, problem), w2) = h.run dir c.command c.args w1 in
      let (stop, w3) = h.now w2 in (outcome_of c ((stop - start) / 1000000) r problem, w3)

  -- The loop of Verify, on the results so far.
  unfoldable pub run_checks : Bytes → List Check → List Outcome → W → (Report × Option Error) × W
  unfolding bytes decimal
  run_checks dir [] results w = ((record { results = results }, none), w)
  run_checks dir (c ∷ cs) results w =
      let (ended, w1) = h.ctx_error w in
      elim ended [
        | some e ↦ (
          (
            record { results = results },
            some (
                wrap
                  (bytes "verification cancelled after "
                    ++ (decimal (length results) ++ bytes " checks: "))
                  e []),
          ),
          w1,
        )
        | none ↦ let (r, w2) = run_check dir c w1 in run_checks dir cs (results ++ r ∷ []) w2
      ]

  -- Verify
  unfoldable pub verify : List Check → Bytes → W → (Report × Option Error) × W
  verify [] dir w = ((empty_report, some (sentinel no_checks)), w)
  verify (c ∷ cs) dir w = run_checks dir (c ∷ cs) [] w

-- NewRunner: the checks that it keeps.
unfoldable pub runner_checks : List Check → List Check
unfolding default_checks
runner_checks [] = default_checks
runner_checks (c ∷ cs) = c ∷ cs
