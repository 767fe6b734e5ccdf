-- ===== src/Lib.antt =====
-- Rojo takes a task for a repository, has a model plan and write the change in isolated checkouts,
-- gates every attempt on deterministic checks, has a model review the one that passed, and keeps
-- the patch. This library is a model of the program with what makes it correct.
--
-- Jobs (internal/jobs): Jobs/Status.antt has the statuses, the table legalTransitions and
-- Job.Transition; Jobs/Lifecycle.antt describes the life of a job by a step relation, independently
-- of the table, and Jobs/Transitions.antt what Transition does by it. Jobs/Repository.antt is the
-- repository in memory, a list for its map, with what a lookup finds in Jobs/Repository/Lookup.antt
-- and the order of List in Jobs/Repository/Order.antt.
--
-- Orchestration (internal/orchestration) runs one job. Orchestration/Candidate.antt is fanout.go,
-- the attempts and the choice between them; Orchestration/Diff.antt is the list of changed files of
-- artifacts.go; Orchestration/Env.antt has what a Processor is built from, whose collaborators are
-- interfaces and so operations on an abstract world. Those that answer a Call may return an error or
-- panic; the bus, the clock, the context and the reading of sources are taken not to panic, and none
-- of those in the repository does.
-- Orchestration/Run.antt has the state of one run, the local variables of Process with the trace of
-- its effects, and the steps on it, which go on, return or panic. Orchestration/Actions.antt has
-- the small methods of processor.go (emit, advance, markFailed, markCancelled, endInterrupted),
-- Orchestration/Stages.antt planning and the workspaces, Orchestration/Attempts.antt implement,
-- verify, mergePaths and captureDiff, Orchestration/Reviewing.antt review.go and the switch on its
-- outcome, and Orchestration/Process.antt the loop and the deferred functions.
--
-- Orchestration/Recovery.antt is recovery.go, what startup does with the stored jobs, and
-- Orchestration/Recovery/Counts.antt what it does with each job and, with
-- Orchestration/Recovery/Outcomes.antt, what its report counts.
--
-- Proofs about a run use the rules of Orchestration/Run/Keeps.antt, which say what a step keeps
-- where it goes on and what holds where it leaves, and of Orchestration/Run/Yields.antt for
-- results. Orchestration/Stable.antt and its children carry an invariant through every stage, from
-- what the small methods keep; Orchestration/Endings.antt and its children apply them.
-- Orchestration/Choice.antt and Orchestration/Gate.antt are about the choice between attempts and
-- the failed gate.
--
-- Workspaces.antt is internal/workspace: the checkouts, over a runner of commands and operations of
-- the package os; its children say what the manager runs (Hardened), what Cleanup leaves (Gone,
-- over IsGit, what git promises) and what ListOrphans answers (Orphans). RepoContext.antt is
-- internal/repocontext, the files that are shown to the model: RepoContext/Words.antt is about the
-- keywords of a task, RepoContext/Scores.antt about the map of scores, and RepoContext/Ranked.antt
-- about the selection; RepoContext/Vocabulary.antt has the stopwords and the names of manifests.
--
-- Queue.antt is the channel of job ids between the API and the workers (internal/queue), and
-- Queue/Order.antt its life as a step relation. Workers.antt is the pool of internal/worker, a step
-- relation over that queue: a worker waits in its select, runs a job or has returned, and a panic
-- of a job ends that job only. Workers/Drained.antt counts what was run, Workers/Finishes.antt
-- bounds the steps.
--
-- The store of files (internal/storage/filestore): Storage.antt has the Disk, a record of the
-- operations of the package os and of encoding/json on a world, each of which may fail, and the
-- writing of job.json by a temporary file and a rename; Storage/Methods.antt is New and the
-- methods. Storage/Disks.antt says what the operations promise (IsDisk: a view of the contents of
-- the files, and what each operation does to it when it succeeds and when it fails), and
-- Storage/Paths.antt with Storage/Cleaned.antt that paths of different jobs and files differ. Over
-- these, Storage/Written.antt is about one write, Storage/Loads.antt about the scan of New,
-- Storage/Steps.antt and Storage/Durable.antt about one call, Storage/Runs.antt about any sequence
-- of calls and restarts of the process, Storage/Restart.antt about what a restart finds, and
-- Storage/Log.antt about the events. That a file can be read is no promise: it is a condition where a
-- store is opened. The loss of what was not synced, as by a power failure, is no step of a run;
-- Storage/Synced.antt is about the sync before the rename, over what fsync promises (IsSynced).
-- Examples/Memory.antt is a disk in memory that keeps the promises.
--
-- Orchestration/Canceller.antt is canceller.go, and Orchestration/Sources.antt sources.go and the
-- loop over revisions of retry.go; their children prove what they promise.
--
-- Verification (internal/verification): Verification/Report.antt is the report, with its summary;
-- Verification/Runner.antt is runner.go, the checks and how an exit is judged, and
-- Verification/Detect.antt detect.go, the presets for the manifests of a worktree. The commands run
-- over Execution.antt (internal/execution): its CommandRunner is an operation on a world, its
-- SafeRunner guards one by the allowlist. Execution/Docker.antt is docker.go, the command line that
-- wraps one in a container.
--
-- Agents (internal/agents): Agents/Types.antt has their data; Agents/Calls.antt is Plan, Propose
-- and Review, with the checks of what the model answered (Agents/Calls/Rulings.antt);
-- Agents/Model.antt is Unfence and the client that they ask, in which json.Marshal and
-- json.Unmarshal are operations too. Agents/Implementor.antt is implementor.go, Apply over an
-- abstract os.Root; filepath.Clean is in Base/FilePath.antt.
--
-- Gate.antt is internal/mcpserver/gate.go, which applies a change by Agents/Implementor.antt in a
-- checkout and checks it there. Events.antt is internal/events, the bus and the bus that stores
-- first, over a store that loses an event behind a torn line, as the store of files does;
-- Events/Stored.antt has its runs as a step relation. Config/EnvFile.antt is
-- internal/config/envfile.go. Config/Settings.antt is config.go over the readers of the
-- environment; its children prove what Validate accepts, what the log hides and which addresses
-- count as public.
--
-- The API (internal/api): Jobs/Request.antt is the validation of a request, Api/Handlers.antt the
-- handlers over a record of collaborators, Api/Response.antt what they answer, Api/Paging.antt the
-- parameters and the pages of the list, Api/RateLimit.antt the token buckets and the bearer check.
-- Api/Service.antt puts the handlers over the repository in memory and the queue.
--
-- Metrics.antt is the registry of internal/metrics with the client that measures calls of the
-- model; Metrics/Durations.antt and Metrics/Totals.antt say what its numbers count.
--
-- Errors.antt has Go's error values, and Base.antt with its children the shared lists, text and
-- sorting. Text is a list of bytes. Examples.antt and its children apply the theorems at concrete
-- inputs and run Process from end to end.
--
-- The loop of Process over its work list has a fuel of nine rounds, five steps and the four that
-- the one revision appends. Running out of it is an exit of the model of its own.
--
-- The goroutines of verifyCandidates share nothing and run one after the other here. A change of a
-- candidate is seen by the others when its loop is over, since none of them reads another. Times
-- are numbers from the world's clock. Tokens of the rate limiter are counted in parts of a token,
-- without the rounding of floating point. Not modelled: logging, stack traces, text of a nil
-- pointer dereference, a status outside the ten constants, negative sizes of the queue and of the
-- pool, a build of the file store without a lock, and the parts of the program that the files above
-- do not name: starting a process, the stream of events, the clients of the model providers, the
-- MCP server over its gate, the benchmark and the commands, which mostly call a library, the system
-- or the network.
pub mod Base
pub mod Errors
pub mod Jobs
pub mod Storage
pub mod Verification
pub mod Queue
pub mod Workers
pub mod Metrics
pub mod Orchestration
pub mod Agents
pub mod Api
pub mod Execution
pub mod Config
pub mod Gate
pub mod Events
pub mod Examples
pub mod Workspaces
pub mod RepoContext
