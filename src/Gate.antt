-- ===== src/Gate.antt =====
-- internal/mcpserver/gate.go: proposed changes, applied in a throwaway checkout and checked there.
pub mod Cleanup
use rojo.Base.{
  ℕ, ◌+◌, Bytes, Bool, true, false, not, ◌&&◌, ◌==◌, List, [], ◌∷◌, ◌++◌, Option, none, some, any,
  bytes, bytes_eq, decimal, hex_encode, is_empty, is_some, leb, length, take, trim_space,
  if◌then◌else◌,
}
use rojo.Errors.{Error, error_text, plain, wrap, Result, ok, err}
use rojo.Agents.Types.{Operation, OpKind, write, append, delete, other_kind}
use rojo.Agents.Implementor.{Root, apply}
use rojo.Verification.Report.{Outcome, Report, all_passed, summary}
use rojo.Orchestration.Candidate.{Workspace}
use rojo.Orchestration.Env.{Call, returns, panics}
use rojo.Orchestration.Diff.{changed_files}

abbrev pub default_max_check_output : ℕ
default_max_check_output = 8192

abbrev pub default_max_diff : ℕ
default_max_diff = 262144

-- Operation, VerifyRequest, CheckResult and VerifyResult of the wire.
pub record WireOperation : Type 0 where
  pub kind : Bytes
  pub path : Bytes
  pub content : Bytes

pub record VerifyRequest : Type 0 where
  pub repo_path : Bytes
  pub operations : List WireOperation

pub record VerifyResult : Type 0 where
  pub passed : Bool
  pub summary : Bytes
  pub checks : List Outcome
  pub changed_files : List Bytes
  pub diff : Bytes
  pub truncated : List Bytes

-- Gate. `root` stands for the os.Root of implementor.New(path).Apply, `random` for crypto/rand; a
-- collaborator may panic.
pub record Gate (W F : Type 0) : Type 0 where
  pub create : Bytes → Bytes → W → Call (Result Workspace) × W
  pub cleanup : Workspace → W → Call (Option Error) × W
  pub diff_of : Workspace → W → Call (Result Bytes) × W
  pub run_checks : Bytes → W → Call (Report × Option Error) × W
  pub root : Root W F
  pub random : W → Bytes × W
  pub max_check_output : ℕ
  pub max_diff : ℕ

-- maxCheckOutput and maxDiff
unfoldable pub limit_or : ℕ → ℕ → ℕ
limit_or limit default = if limit == 0 then default else limit

unfoldable pub read_kind : Bytes → OpKind
unfolding bytes bytes_eq
read_kind k =
    if bytes_eq k (bytes "write")
    then write
    else if bytes_eq k (bytes "append")
    then append
    else if bytes_eq k (bytes "delete")
    then delete
    else other_kind k

-- The loop of toOperations, at the index of its first operation.
unfoldable pub to_operations : (Bytes → Bytes) → ℕ → List WireOperation → Result (List Operation)
unfolding bytes decimal read_kind
to_operations quote i [] = ok []
to_operations quote i (op ∷ ops) =
    let kind = read_kind op.kind in
    let rest = to_operations quote (i + 1) ops in
    let here : Result (List Operation) =
      if is_empty (trim_space op.path)
      then err (plain (bytes "operation " ++ (decimal i ++ bytes ": path is required")))
      else elim rest [
        | err e ↦ err e
        | ok out ↦ ok (record { kind = kind; path = op.path; content = op.content } ∷ out)
      ] in
    elim kind [
      | other_kind k ↦ err (
          plain (
            bytes "operation "
            ++ (decimal i
                ++ (bytes ": kind must be \"write\", \"append\" or \"delete\", got " ++ quote k))))
      | _ ↦ here
    ]

-- truncate
unfoldable pub clip : Bytes → ℕ → Bytes × Bool
unfolding bytes
clip s max =
    if leb (length s) max then (s, false) else (take max s ++ (10 ∷ bytes "... (truncated)"), true)

unfoldable pub append_once : List Bytes → Bytes → List Bytes
append_once names v = if any (bytes_eq v) names then names else names ++ v ∷ []

-- The loop over the results of a report, on the checks and the names so far.
unfoldable pub clip_checks :
    ℕ → List Outcome → List Outcome → List Bytes → List Outcome × List Bytes
unfolding bytes clip append_once
clip_checks max [] checks names = (checks, names)
clip_checks max (r ∷ rs) checks names =
    let (out, clipped) = clip r.output max in
    clip_checks max rs (checks ++ record r { output = out } ∷ []) (
      if clipped
      then append_once names (bytes "checks[" ++ (r.check ++ bytes "].output"))
      else names)

-- The result, without the diff.
unfoldable pub result_of : ℕ → Report × Option Error → VerifyResult
unfolding bytes clip_checks
result_of max (report, problem) =
    let (checks, names) = clip_checks max report.results [] [] in
    record {
      passed = not (is_some problem) && all_passed report;
      summary = elim problem [
        | none ↦ summary report
        | some e ↦ bytes "verification could not be completed: " ++ error_text e
      ];
      checks = checks;
      changed_files = [];
      diff = [];
      truncated = names;
    }

unfoldable pub with_diff : ℕ → Bytes → VerifyResult → VerifyResult
unfolding bytes clip append_once
with_diff max diff r =
    if is_empty (trim_space diff)
    then r
    else let (text, clipped) = clip diff max in
      record r {
        changed_files = changed_files diff;
        diff = text;
        truncated = if clipped then append_once r.truncated (bytes "diff") else r.truncated;
      }

module _ {W F : Type 0} (g : Gate W F) where
  -- newWorktreeID
  unfoldable pub new_worktree_id : W → Bytes × W
  unfolding bytes
  new_worktree_id w = let (b, w1) = g.random w in (bytes "mcp-" ++ hex_encode b, w1)

  -- Verify, from the checks on.
  unfoldable pub check_change : Workspace → W → Call (Result VerifyResult) × W
  unfolding result_of with_diff
  check_change ws w =
      let (checked, w1) = g.run_checks ws.path w in
      elim checked [
        | panics v ↦ (panics v, w1)
        | returns answer ↦
            let r = result_of (limit_or g.max_check_output default_max_check_output) answer in
            let (read, w2) = g.diff_of ws w1 in
            (
              elim read [
                | panics v ↦ panics v
                | returns (err e) ↦ returns (ok r)
                | returns (ok diff) ↦
                    returns (ok (with_diff (limit_or g.max_diff default_max_diff) diff r))
              ],
              w2,
            )
      ]

  -- Verify, in the checkout.
  unfoldable pub try_change : Workspace → List Operation → W → Call (Result VerifyResult) × W
  unfolding bytes
  try_change ws ops w =
      let (problem, w1) = apply g.root ws.path ops w in
      elim problem [
        | some e ↦ (returns (err (wrap (bytes "apply operations: ") e [])), w1)
        | none ↦ check_change ws w1
      ]

  -- The deferred removal of the checkout; its error is only logged.
  unfoldable pub remove_checkout :
      Workspace → Call (Result VerifyResult) × W → Call (Result VerifyResult) × W
  remove_checkout ws (answer, w) =
      let (removed, w1) = g.cleanup ws w in
      (elim removed [ panics v ↦ panics v | returns e ↦ answer ], w1)

  -- Verify
  unfoldable pub verify_change : VerifyRequest → W → Call (Result VerifyResult) × W
  unfolding bytes
  verify_change req w =
      if is_empty (trim_space req.repo_path)
      then (returns (err (plain (bytes "repo_path is required"))), w)
      else elim (to_operations g.root.quote 0 req.operations) [
        | err e ↦ (returns (err e), w)
        | ok ops ↦
            let (id, w1) = new_worktree_id w in
            let (made, w2) = g.create id req.repo_path w1 in
            elim made [
              | panics v ↦ (panics v, w2)
              | returns (err e) ↦
                  (returns (err (wrap (bytes "create isolated worktree: ") e [])), w2)
              | returns (ok ws) ↦ remove_checkout ws (try_change ws ops w2)
            ]
      ]
