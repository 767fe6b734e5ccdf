-- ===== src/Execution.antt =====
-- internal/execution: runner.go's types, and the allowlist and the SafeRunner of allowlist.go.
pub mod Docker
pub mod Safe
use rojo.Base.{
  ℕ, Bytes, Bool, true, false, not, List, Option, none, some, [], ◌++◌, bytes, bytes_eq, any,
  if◌then◌else◌,
}
use rojo.Errors.{Error, sentinel, wrap, command_not_allowed, timed_out}

-- An exit status; `killed` is the status -1 of a process that a signal ended.
pub data ExitCode : Type 0 where
  exited : ℕ → ExitCode
  killed : ExitCode

pub record CommandResult : Type 0 where
  pub exit_code : ExitCode
  pub stdout : Bytes
  pub stderr : Bytes
  -- in nanoseconds
  pub duration : ℕ
  pub timed_out : Bool

-- CommandRunner.Run: the working directory, the command and its arguments.
abbrev pub CommandRunner : Type 0 → Type 0
CommandRunner W = Bytes → Bytes → List Bytes → W → (CommandResult × Option Error) × W

abbrev pub no_result : CommandResult
no_result = record {
  exit_code = exited 0;
  stdout = [];
  stderr = [];
  duration = 0;
  timed_out = false;
}

abbrev pub Allowlist : Type 0
Allowlist = List Bytes

-- Contains
unfoldable pub allows : Allowlist → Bytes → Bool
allows commands command = any (bytes_eq command) commands

-- What a SafeRunner stands on. `inner` runs under the context that `timeout` ends; `ctx_error` is Err of
-- the caller's context, and `expired` tells whether the deadline ended the context of the run.
pub record SafeRunner (W : Type 0) : Type 0 where
  pub inner : CommandRunner W
  pub allowlist : Allowlist
  pub ctx_error : W → Option Error × W
  pub expired : W → Bool × W

-- Run
unfoldable pub safe_run : {W : Type 0} → SafeRunner W → CommandRunner W
unfolding bytes allows
safe_run s dir command args w =
    if not (allows s.allowlist command)
    then ((no_result, some (wrap [] (sentinel command_not_allowed) (bytes ": " ++ command))), w)
    else let ((result, problem), w1) = s.inner dir command args w in
      let (ended, w2) = s.ctx_error w1 in
      elim ended [
        | some e ↦ ((result, some e), w2)
        | none ↦
            let (late, w3) = s.expired w2 in
            if late
            then ((record result { timed_out = true }, some (sentinel timed_out)), w3)
            else ((result, problem), w3)
      ]
