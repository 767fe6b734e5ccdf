-- ===== src/Errors.antt =====
-- Go's error values: the sentinels that callers test with errors.Is, fmt.Errorf and errors.Join.
use rojo.Base.{Bytes, Bool, false, ℕ, bytes, ◌++◌, ◌==◌, ◌||◌}

-- context.DeadlineExceeded, context.Canceled, fs.ErrNotExist, os.ErrInvalid, and the
-- package-level errors of internal/jobs, internal/queue, internal/orchestration, internal/execution,
-- internal/verification, internal/agents and internal/workspace.
pub data Sentinel : Type 0 where
  deadline_exceeded canceled job_not_found job_already_exists queue_full : Sentinel
  job_not_running max_revisions_exceeded panicked command_not_allowed timed_out : Sentinel
  not_exist path_escape protected_path too_many_ops op_too_large empty_path : Sentinel
  invalid_op no_checks invalid_argument empty_plan invalid_plan : Sentinel
  no_operations invalid_operations invalid_decision : Sentinel
  repo_not_found not_a_git_repo path_traversal worktree_not_found : Sentinel
  no_text_content truncated : Sentinel

-- `plain` is an error that no errors.Is recognises; `wrap before e after` is fmt.Errorf with one %w.
pub data Error : Type 0 where
  sentinel : Sentinel → Error
  plain : Bytes → Error
  wrap : Bytes → Error → Bytes → Error
  join : Error → Error → Error

abbrev pub Sentinel_code : Sentinel → ℕ
Sentinel_code deadline_exceeded = 0
Sentinel_code canceled = 1
Sentinel_code job_not_found = 2
Sentinel_code job_already_exists = 3
Sentinel_code queue_full = 4
Sentinel_code job_not_running = 5
Sentinel_code max_revisions_exceeded = 6
Sentinel_code panicked = 7
Sentinel_code command_not_allowed = 8
Sentinel_code timed_out = 9
Sentinel_code not_exist = 10
Sentinel_code path_escape = 11
Sentinel_code protected_path = 12
Sentinel_code too_many_ops = 13
Sentinel_code op_too_large = 14
Sentinel_code empty_path = 15
Sentinel_code invalid_op = 16
Sentinel_code no_checks = 17
Sentinel_code invalid_argument = 18
Sentinel_code empty_plan = 19
Sentinel_code invalid_plan = 20
Sentinel_code no_operations = 21
Sentinel_code invalid_operations = 22
Sentinel_code invalid_decision = 23
Sentinel_code repo_not_found = 24
Sentinel_code not_a_git_repo = 25
Sentinel_code path_traversal = 26
Sentinel_code worktree_not_found = 27
Sentinel_code no_text_content = 28
Sentinel_code truncated = 29

-- errors.Is
unfoldable pub error_is : Sentinel → Error → Bool
error_is s (sentinel t) = Sentinel_code s == Sentinel_code t
error_is s (plain m) = false
error_is s (wrap before e after) = error_is s e
error_is s (join d e) = error_is s d || error_is s e

unfoldable pub sentinel_text : Sentinel → Bytes
unfolding bytes
sentinel_text deadline_exceeded = bytes "context deadline exceeded"
sentinel_text canceled = bytes "context canceled"
sentinel_text job_not_found = bytes "job not found"
sentinel_text job_already_exists = bytes "job already exists"
sentinel_text queue_full = bytes "queue is full"
sentinel_text job_not_running = bytes "job is not currently running"
sentinel_text max_revisions_exceeded = bytes "max revisions exceeded"
sentinel_text panicked = bytes "panic while processing job"
sentinel_text command_not_allowed = bytes "command not in allowlist"
sentinel_text timed_out = bytes "command timed out"
sentinel_text not_exist = bytes "file does not exist"
sentinel_text path_escape = bytes "path escapes workspace"
sentinel_text protected_path = bytes "path is protected"
sentinel_text too_many_ops = bytes "too many operations in one attempt"
sentinel_text op_too_large = bytes "operation exceeds max size"
sentinel_text empty_path = bytes "path is empty"
sentinel_text invalid_op = bytes "invalid operation kind"
sentinel_text no_checks = bytes "no verification checks configured"
sentinel_text invalid_argument = bytes "invalid argument"
sentinel_text empty_plan = bytes "planner returned empty plan"
sentinel_text invalid_plan = bytes "planner returned invalid plan"
sentinel_text no_operations = bytes "implementor proposed no operations"
sentinel_text invalid_operations = bytes "implementor returned invalid operations"
sentinel_text invalid_decision = bytes "reviewer returned invalid decision"
sentinel_text repo_not_found = bytes "repository path does not exist"
sentinel_text not_a_git_repo = bytes "path is not a git repository"
sentinel_text path_traversal = bytes "path escapes repository root"
sentinel_text worktree_not_found = bytes "worktree not found"
sentinel_text no_text_content = bytes "model returned no text content"
sentinel_text truncated = bytes "model output was cut off at the token limit"

-- err.Error()
unfoldable pub error_text : Error → Bytes
unfolding sentinel_text
error_text (sentinel s) = sentinel_text s
error_text (plain m) = m
error_text (wrap before e after) = before ++ (error_text e ++ after)
error_text (join d e) = error_text d ++ (bytes "\n" ++ error_text e)

-- A value with an error beside it, where the code returns one or the other.
pub data Result {ℓ} (A : Type ℓ) : Type ℓ where
  ok : A → Result A
  err : Error → Result A
