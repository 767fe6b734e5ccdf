-- ===== src/Examples/Setting.antt =====
-- Jobs, attempts at them, and collaborators to run Process with. The world is a number that every
-- check of a checkout makes greater.
use rojo.Base.{ℕ, suc, ltb, Bool, true, false, [], ◌∷◌, none, some}
use rojo.Errors.{plain, ok}
use rojo.Jobs.Status.{Job, queued, verifying}
use rojo.Verification.Report.{Outcome}
use rojo.Agents.Types.{write}
use rojo.Orchestration.Candidate.{Workspace, Candidate}
use rojo.Orchestration.Recovery.{Recoverer}
use rojo.Orchestration.Env.{Env, returns, panics}

abbrev pub job : Job
job = record {
  id = 106 ∷ [];
  task = 116 ∷ [];
  repo_path = 114 ∷ [];
  status = queued;
  created_at = 0;
  updated_at = 0;
}

abbrev pub later_job : Job
later_job = record job { id = 107 ∷ []; created_at = 9 }

abbrev pub checkout : Workspace
checkout = record { job_id = 106 ∷ []; branch = 98 ∷ []; path = 112 ∷ []; repo_path = 114 ∷ [] }

abbrev pub outcome : Bool → Outcome
outcome b = record { check = 99 ∷ []; passed = b; output = 111 ∷ []; duration = 1; note = [] }

abbrev pub good : Candidate
good = record {
  index = 1;
  ws = some checkout;
  report = record { results = outcome true ∷ [] };
  error = none;
  impl_error = none;
  touched = [];
}

abbrev pub bad : Candidate
bad = record good { index = 0; report = record { results = outcome false ∷ [] } }

abbrev pub unbuilt : Candidate
unbuilt = record bad { impl_error = some (plain []) }

-- Every check passes.
abbrev pub env : Env ℕ
env = record {
  get_job = λ id w. (returns (ok job), w);
  update_job = λ ctx j w. (returns none, w);
  cancellable = false;
  publish = none;
  workspaces = some (record {
    create = λ ctx id repo w. (returns (ok checkout), w);
    cleanup = λ ctx ws w. (returns none, w);
    diff = λ ctx ws w. (returns (ok []), w);
  });
  verifier = some (λ path w. (returns (record { results = outcome true ∷ [] }, none), suc w));
  planner = none;
  context = none;
  implementor = some (λ request w.
      (returns (ok (record { kind = write; path = 102 ∷ []; content = [] } ∷ [])), w));
  artifacts = none;
  reviewer = none;
  apply = λ path ops w. (returns none, w);
  read_sources = λ path files w. ([], w);
  variants = 2;
  metered = true;
  timeout_text = [];
  now = λ w. (w, w);
  ctx_error = λ w. (none, w);
  pause = λ w. (none, w);
}

-- The first two checks fail, and the attempt after the revision passes.
abbrev pub fixable : Env ℕ
fixable = record env {
  verifier = some (λ path w. (returns (record { results = outcome (ltb 1 w) ∷ [] }, none), suc w));
}

-- No check ever passes.
abbrev pub failing : Env ℕ
failing = record env {
  verifier = some (λ path w. (returns (record { results = outcome false ∷ [] }, none), suc w));
}

-- The implementor panics.
abbrev pub broken : Env ℕ
broken = record env { implementor = some (λ request w. (panics [], w)) }

-- A queue that takes every job, and a job of either kind to recover.
abbrev pub recoverer : Recoverer ℕ
recoverer = record {
  list = λ w. (ok (job ∷ record later_job { status = verifying } ∷ []), w);
  update = λ j w. (none, w);
  enqueue = some (λ id w. (none, suc w));
  publish = none;
  cleanup = some (λ ws w. (none, w));
  base_dir = 98 ∷ [];
  exists = λ path w. (true, w);
  join_path = λ a b. b;
  now = λ w. (w, w);
}
