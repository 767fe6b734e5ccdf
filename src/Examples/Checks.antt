-- ===== src/Examples/Checks.antt =====
-- The theorems about checks, agents, the gate and the event bus at concrete inputs.
use rojo.Base.{
  ℕ, ◌+◌, ◌<◌, Bytes, Bool, true, false, List, [], ◌∷◌, none, ◌≡◌, ◌≢◌, refl, ◌↔◌, arith, bytes,
  trim_space,
}
use rojo.Errors.{plain, ok, err}
use rojo.Execution.{CommandRunner, no_result}
use rojo.Verification.Report.{all_passed, summary}
use rojo.Verification.Runner.{Host, verify, default_checks}
use rojo.Verification.Runner.Judged.{Passes, AllClean, verify-Passes}
use rojo.Verification.Detect.{Tools, detect, auto_verify}
use rojo.Verification.Detect.Presets.{broken_manifest, auto_verify-Passes}
use rojo.Agents.Types.{Plan, Operation, write, Review, ReviewRequest, approve, request_changes}
use rojo.Agents.Model.{Client, unfence}
use rojo.Agents.Implementor.{Root, apply}
use rojo.Agents.Calls.{review_change}
use rojo.Agents.Calls.Checked.{Answers, review_change-IsDecided}
use rojo.Agents.Calls.Rulings.{IsDecided}
use rojo.Orchestration.Candidate.{Workspace}
use rojo.Orchestration.Env.{Event, returns, panics, job_started}
use rojo.Gate.{
  Gate, VerifyRequest, VerifyResult, to_operations, new_worktree_id, remove_checkout, try_change,
  check_change, verify_change,
}
use rojo.Gate.Cleanup.{Proven, verify_change-cleans, verify_change-Proven}
use rojo.Events.{System, Appended, kept, subscribe, publish}
use rojo.Events.Stored.{start, published, subscribed, IsSound, Reached-IsSound}

-- Commands that all exit with 0; the world counts them.
abbrev runner : CommandRunner ℕ
runner dir command args w = ((no_result, none), w + 1)

abbrev host : Host ℕ
host = record { run = runner; now = λ w. (w, w); ctx_error = λ w. (none, w) }

verify-Passes_example :
    Passes host (bytes "/w") (verify host default_checks (bytes "/w") 0)
    ↔ ((default_checks ≢ []) × AllClean host (bytes "/w") default_checks 0)
verify-Passes_example = verify-Passes host default_checks (bytes "/w") 0

-- A host with every tool, and a worktree with every manifest.
abbrev tools : Tools
tools = record { exists = λ p. true; installed = λ t. true; read_script = λ p. ok (bytes "jest") }

auto_verify-Passes_example : Passes host (bytes "/w") (auto_verify host tools (bytes "/w") 0) ↔ (
    (broken_manifest tools (bytes "/w") ≡ false)
    × AllClean host (bytes "/w") (detect tools (bytes "/w")).0 0)
auto_verify-Passes_example = auto_verify-Passes host tools (bytes "/w") 0

abbrev plan : Plan
plan = record {
  summary = [];
  steps = record { id = bytes "1"; description = bytes "do"; files = [] } ∷ [];
}

abbrev operations : List Operation
operations = record { kind = write; path = bytes "a"; content = [] } ∷ []

abbrev approval : Review
approval = record { decision = approve; notes = []; reasons = [] }

-- A model that answers with one text, and what is read of it; the world counts the calls.
abbrev client : Client ℕ
client = record {
  generate = λ system prompt w. (ok (bytes "{}"), w + 1);
  marshal_plan = λ r. ok (bytes "p");
  marshal_implement = λ r. ok (bytes "i");
  marshal_review = λ r. ok (bytes "r");
  unmarshal_plan = λ t. ok plan;
  unmarshal_operations = λ t. ok operations;
  unmarshal_review = λ t. ok approval;
  quote = λ t. t;
}

abbrev review_request : ReviewRequest
review_request = record {
  task = bytes "fix";
  plan = plan;
  diff = [];
  verification = record { results = [] };
  prior_feedback = [];
  changed_files = [];
}

review_change-IsDecided_example :
    (all_passed review_request.verification ≡ false
      → ((v : Review) × ((review_change client [] review_request 0).0 ≡ ok v)
          × (v.decision ≡ request_changes))
        × ((review_change client [] review_request 0).1 ≡ 0))
    × ((v : Review)
        → all_passed review_request.verification ≡ true
        → ((review_change client [] review_request 0).0 ≡ ok v) ↔ (
            ((text : Bytes) × Answers client [] (ok (bytes "r")) 0 text
              × (client.unmarshal_review (unfence text) ≡ ok v))
            × IsDecided v.decision))
review_change-IsDecided_example = review_change-IsDecided client [] review_request 0

-- A gate whose world is the number of checkouts.
abbrev checkout : Workspace
checkout = record { job_id = []; branch = []; path = bytes "/c"; repo_path = bytes "/r" }

abbrev still_root : Root ℕ ℕ
still_root = record {
  open_root = λ p w. (none, w);
  close_root = λ w. w;
  mkdir_all = λ p w. (none, w);
  write_file = λ p content w. (none, w);
  open_append = λ p w. (err (plain []), w);
  write_string = λ f content w. (none, w);
  close_file = λ f w. w;
  remove = λ p w. (none, w);
  quote = λ s. s;
}

abbrev gate : Gate ℕ ℕ
gate = record {
  create = λ id repo w. (returns (ok checkout), w + 1);
  cleanup = λ ws w. (returns none, 0);
  diff_of = λ ws w. (panics [], w);
  run_checks = λ dir w. (returns (record { results = [] }, none), w);
  root = still_root;
  random = λ w. (1 ∷ [], w);
  max_check_output = 0;
  max_diff = 0;
}

abbrev change : VerifyRequest
change = record { repo_path = bytes "/r"; operations = [] }

verify_change-cleans_example : (verify_change gate change 0).1 ≡ 0
verify_change-cleans_example =
    verify_change-cleans gate (λ w. w ≡ 0) (λ ws w. w ≡ w) (λ w h. h)
      (λ id repo w h. (λ ws e. refl, λ n. absurd (n checkout refl))) (λ ws ops w h. refl)
      (λ ws w h. refl) (λ ws w h. refl) (λ ws w h. refl) change 0 refl

-- The same gate, whose diff can be read.
abbrev calm_gate : Gate ℕ ℕ
calm_gate = record gate { diff_of = λ ws w. (returns (ok []), w) }

abbrev proven : VerifyResult
proven = record {
  passed = true;
  summary = bytes "all 0 checks passed";
  checks = [];
  changed_files = [];
  diff = [];
  truncated = [];
}

calm_answer : (verify_change calm_gate change 0).0 ≡ returns (ok proven)
unfolding verify_change trim_space to_operations remove_checkout try_change apply check_change
    all_passed summary
calm_answer = refl

verify_change-Proven_example :
    (ops : List Operation) × (ws : Workspace) × (to_operations calm_gate.root.quote 0 [] ≡ ok ops)
    × ((calm_gate.create
          (new_worktree_id calm_gate 0).0
          (bytes "/r")
          (new_worktree_id calm_gate 0).1).0
        ≡ returns (ok ws))
    × Proven calm_gate ws ops
        (calm_gate.create
          (new_worktree_id calm_gate 0).0
          (bytes "/r")
          (new_worktree_id calm_gate 0).1).1
verify_change-Proven_example = verify_change-Proven calm_gate change 0 proven calm_answer refl

-- A subscriber of one job, and an event of it.
abbrev event : Event
event = record { job_id = bytes "j"; payload = job_started; created_at = 0 }

abbrev no_tear : Bytes → Bool
no_tear id = false

abbrev empty_system : System
empty_system = record { history = []; torn = no_tear; swallowed = []; subs = []; received = [] }

abbrev one_subscriber : System
one_subscriber = record empty_system { subs = subscribe (bytes "j") 1 [] }

abbrev one_event : System
one_event = (publish kept [] 7 event one_subscriber).1

Reached-IsSound_example :
    IsSound one_event
    × (false ≡ false → one_event.swallowed ≡ [])
    × ((came : Appended) (what : Bytes) (now : ℕ) (e : Event) (v : Bytes)
        → 0 < now
        → (publish came what now e one_event).0 ≢ panics v)
Reached-IsSound_example = Reached-IsSound {tears = false} (
    published kept [] 7 event (subscribed (bytes "j") 1 (start [] no_tear (λ h id. refl)))
      (omega arith) (λ h fault x. cc x))
