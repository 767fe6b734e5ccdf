-- ===== src/Agents/Types.antt =====
-- The values that the agents exchange with the pipeline: internal/agents/planner/planner.go,
-- implementor/agent.go, implementor/implementor.go and reviewer/reviewer.go.
use rojo.Base.{Bytes, List}
use rojo.Verification.Report.{Report}

-- planner.Step and planner.Plan
pub record PlanStep : Type 0 where
  pub id : Bytes
  pub description : Bytes
  pub files : List Bytes

pub record Plan : Type 0 where
  pub summary : Bytes
  pub steps : List PlanStep

-- planner.Request
pub record PlanRequest : Type 0 where
  pub task : Bytes
  pub repo_path : Bytes
  pub files : List Bytes
  pub tree : List Bytes

-- The string constants OpWrite, OpAppend and OpDelete, and any other text.
pub data OpKind : Type 0 where
  write append delete : OpKind
  other_kind : Bytes → OpKind

-- implementor.Operation
pub record Operation : Type 0 where
  pub kind : OpKind
  pub path : Bytes
  pub content : Bytes

-- implementor.SourceFile and implementor.Request
pub record SourceFile : Type 0 where
  pub path : Bytes
  pub content : Bytes

pub record ImplementRequest : Type 0 where
  pub task : Bytes
  pub plan : Plan
  pub files : List SourceFile
  pub tree : List Bytes
  pub feedback : Bytes

-- reviewer.Decision: its three constants, and any other text.
pub data Decision : Type 0 where
  approve request_changes reject : Decision
  other_decision : Bytes → Decision

-- reviewer.Review and reviewer.Request
pub record Review : Type 0 where
  pub decision : Decision
  pub notes : Bytes
  pub reasons : List Bytes

pub record ReviewRequest : Type 0 where
  pub task : Bytes
  pub plan : Plan
  pub diff : Bytes
  pub verification : Report
  pub prior_feedback : Bytes
  pub changed_files : List Bytes
