-- ===== src/Orchestration/Recovery.antt =====
-- internal/orchestration/recovery.go: what startup does with the jobs that it finds stored.
pub mod Counts
pub mod Outcomes
use rojo.Base.{
  ℕ, zero, suc, ◌+◌, Bytes, Bool, true, false, ◌&&◌, ◌||◌, not, List, [], ◌∷◌, ◌++◌, Option, none,
  some, bytes, is_some, is_empty, if◌then◌else◌,
}
use rojo.Errors.{Error, wrap, Result, ok, err}
use rojo.Jobs.Status.{
  Status, Job, queued, planning, preparing_workspace, implementing, verifying, reviewing,
  waiting_for_revision, failed, status_eq, status_text, transition,
}
use rojo.Orchestration.Candidate.{Workspace, variant_id, max_variants}

-- The fields of Recoverer with what it calls of the system, as operations on a world of their own.
-- `publish` is given the id of the job and the status that it was interrupted in, `exists` stands for
-- os.Stat and `join_path` for filepath.Join.
pub record Recoverer (W : Type 0) : Type 0 where
  pub list : W → Result (List Job) × W
  pub update : Job → W → Option Error × W
  pub enqueue : Option (Bytes → W → Option Error × W)
  pub publish : Option (Bytes → Status → W → W)
  pub cleanup : Option (Workspace → W → Option Error × W)
  pub base_dir : Bytes
  pub exists : Bytes → W → Bool × W
  pub join_path : Bytes → Bytes → Bytes
  pub now : W → ℕ × W

pub record RecoveryReport : Type 0 where
  pub requeued : ℕ
  pub failed_interrupted : ℕ
  pub worktrees_reclaimed : ℕ
  pub unqueueable : ℕ

abbrev pub no_report : RecoveryReport
no_report = record {
  requeued = 0;
  failed_interrupted = 0;
  worktrees_reclaimed = 0;
  unqueueable = 0;
}

unfoldable pub is_interrupted : Status → Bool
is_interrupted planning = true
is_interrupted preparing_workspace = true
is_interrupted implementing = true
is_interrupted verifying = true
is_interrupted reviewing = true
is_interrupted waiting_for_revision = true
is_interrupted _ = false

-- The ids of `left` variants, from the one with the number `i`.
unfoldable pub variant_ids : Bytes → ℕ → ℕ → List Bytes
variant_ids id zero i = []
variant_ids id (suc left) i = variant_id id i max_variants ∷ variant_ids id left (suc i)

module _ {W : Type 0} (r : Recoverer W) where
  -- workspace.Reconstruct
  unfoldable pub reconstruct : Bytes → Bytes → Workspace
  unfolding bytes
  reconstruct id repo_path = record {
    job_id = id;
    branch = bytes "rojo/job/" ++ id;
    path = r.join_path r.base_dir id;
    repo_path = repo_path;
  }

  -- One name of a worktree: whether it was reclaimed.
  unfoldable pub reclaim_one : (Workspace → W → Option Error × W) → Workspace → W → Bool × W
  reclaim_one cleanup ws w =
      let (there, w1) = r.exists ws.path w in
      elim there [
        | false ↦ (false, w1)
        | true ↦ let (problem, w2) = cleanup ws w1 in (not (is_some problem), w2)
      ]

  unfoldable pub reclaim_each : (Workspace → W → Option Error × W) → Job → List Bytes → W → Bool × W
  reclaim_each cleanup job [] w = (false, w)
  reclaim_each cleanup job (id ∷ ids) w =
      let (this, w1) = reclaim_one cleanup (reconstruct id job.repo_path) w in
      let (others, w2) = reclaim_each cleanup job ids w1 in (this || others, w2)

  unfoldable pub reclaim_worktree : Job → W → Bool × W
  reclaim_worktree job w = elim r.cleanup [
    | none ↦ (false, w)
    | some cleanup ↦ elim (is_empty r.base_dir || is_empty job.repo_path) [
      | true ↦ (false, w)
      | false ↦ reclaim_each cleanup job (job.id ∷ variant_ids job.id max_variants 0) w
    ]
  ]

  -- The publication, whose error is dropped.
  abbrev pub announce_failure : Job → W → W
  announce_failure job w = elim r.publish [ none ↦ w | some publish ↦ publish job.id job.status w ]

  unfoldable pub fail_interrupted : Job → W → Option Error × W
  fail_interrupted job w =
      let (now, w1) = r.now w in
      elim (transition now job failed) [
        | err e ↦ (
          some
              (wrap (bytes "transition " ++ (status_text job.status ++ bytes " -> failed: ")) e []),
          w1,
        )
        | ok job' ↦
            let (problem, w2) = r.update job' (announce_failure job w1) in
            (
              elim problem [
                | none ↦ none
                | some e ↦ some (wrap (bytes "persist failed status: ") e [])
              ],
              w2,
            )
      ]

  -- The two cases of the switch.
  unfoldable pub requeue : Job → RecoveryReport → W → RecoveryReport × W
  requeue job p w = elim r.enqueue [
    | none ↦ (p, w)
    | some enqueue ↦
        let (problem, w1) = enqueue job.id w in
        (
          elim problem [
            | none ↦ record p { requeued = suc p.requeued }
            | some e ↦ record p { unqueueable = suc p.unqueueable }
          ],
          w1,
        )
  ]

  unfoldable pub recover_interrupted : Job → RecoveryReport → W → RecoveryReport × W
  recover_interrupted job p w =
      let (reclaimed, w1) = reclaim_worktree job w in
      let (problem, w2) = fail_interrupted job w1 in
      let p1 : RecoveryReport =
        if reclaimed then record p { worktrees_reclaimed = suc p.worktrees_reclaimed } else p in
      (
        elim problem [
          | none ↦ record p1 { failed_interrupted = suc p1.failed_interrupted }
          | some e ↦ p1
        ],
        w2,
      )

  unfoldable pub recover_one : Job → RecoveryReport → W → RecoveryReport × W
  recover_one job p w = elim (status_eq job.status queued) [
    | true ↦ requeue job p w
    | false ↦ elim (is_interrupted job.status) [
      | true ↦ recover_interrupted job p w
      | false ↦ (p, w)
    ]
  ]

  unfoldable pub recover_each : List Job → RecoveryReport → W → RecoveryReport × W
  recover_each [] p w = (p, w)
  recover_each (job ∷ jobs) p w = let (p1, w1) = recover_one job p w in recover_each jobs p1 w1

  -- Recover
  unfoldable pub recover : W → RecoveryReport × Option Error × W
  recover w =
      let (all, w1) = r.list w in
      elim all [
        | err e ↦ (no_report, some (wrap (bytes "list jobs for recovery: ") e []), w1)
        | ok jobs ↦ let (p, w2) = recover_each jobs no_report w1 in (p, none, w2)
      ]
