-- ===== src/Orchestration/Endings/Passed.antt =====
-- About the gate of Process (internal/orchestration/processor.go), from the steps to the completion.
pub mod Rounds
pub mod Last
use rojo.Base.{
  ℕ, zero, suc, Bytes, Bool, true, false, ◌&&◌, ◌||◌, List, [], ◌∷◌, ◌++◌, map, Option, none, some,
  ◌≡◌, ◌≢◌, refl, ◌⊎◌, inl, inr, arith, is_some, if◌then◌else◌, ltb, Bool-cases, sym, ap, ◌∙◌,
}
use rojo.Errors.{Error}
use rojo.Jobs.Status.{
  Status, Job, planning, preparing_workspace, implementing, verifying, reviewing, queued,
  waiting_for_revision, completed, failed, cancelled, status_eq, transition,
}
use rojo.Jobs.Lifecycle.{Edge}
use rojo.Jobs.Transitions.{transition-ok}
use rojo.Orchestration.Candidate.{Candidate, passed}
use rojo.Orchestration.Env.{
  Env, Payload, Ctx, job_ctx, job_started, revision_requested, step_started, step_completed,
  job_completed,
}
use rojo.Orchestration.Run.{
  Run, M, Exit, exhausted, revision, queue_wait, on_option, pure, ◌>>=◌, ◌>>◌, gets, modify, finish,
  panicking, next, stop,
}
use rojo.Orchestration.Run.Keeps.{
  Left, stopped, broke, spent, Post, Hoare, Keeps, IsFrame, Post-same, Hoare-bind, Hoare-mono,
  Hoare-pure, Hoare-gets, Hoare-when, Hoare-modify, Hoare-if, Keeps-bind, Keeps-pure, Keeps-gets,
  Always, Always-at, keeps_rules,
}
use rojo.Orchestration.Actions.{
  fail_with, checkpoint, emit, count, move, update, advance, mark_failed, mark_cancelled, fail_if,
}
use rojo.Orchestration.Attempts.{is_nil, verifying_stage}
use rojo.Orchestration.Reviewing.{Verdict, approved, revise, refused, act_on, reviewing_stage}
use rojo.Orchestration.Process.{
  stage, run_step, run_steps, complete, body, guarded, recovered, process_loaded, start,
  initial_steps, step_fuel,
}
use rojo.Orchestration.Stable.{
  Quiet, Stable, Ends, Vouches, Hoare-fail_with, Keeps-fail_if, Keeps-checkpoint,
  Keeps-planning_stage,
}
use rojo.Orchestration.Stable.Inert.{IsInert, Keeps-advance, Keeps-mark_failed}
use rojo.Orchestration.Stable.Methods.{Keeps-emit, Keeps-count, Keeps-update, Hoare-move}
use rojo.Orchestration.Stable.Stages.{Keeps-implementing_stage, Hoare-gated}
use rojo.Orchestration.Stable.Loop.{Keeps-review, Keeps-workspace_stage}
use rojo.Orchestration.Stable.Final.{guarded-Always, works, works-append}

-- The gate is still to be run.
abbrev pending : List Status → Bool
pending [] = false
pending (verifying ∷ ss) = true
pending (_ ∷ ss) = pending ss

-- No attempt is made anew without a gate behind it.
abbrev ordered : List Status → Bool
ordered [] = true
ordered (preparing_workspace ∷ ss) = pending ss && ordered ss
ordered (_ ∷ ss) = ordered ss

abbrev makes_anew : List Status → Bool
makes_anew [] = false
makes_anew (preparing_workspace ∷ ss) = true
makes_anew (_ ∷ ss) = makes_anew ss

pending-append : (a b : List Status) → pending (a ++ b) ≡ (pending b || pending a)
pending-append [] b = ground arith
pending-append (to ∷ a) b = ground (arith, pending-append a b, to)

ordered_of_fresh : (b : List Status) → makes_anew b ≡ false → ordered b ≡ true
ordered_of_fresh [] m = refl
ordered_of_fresh (to ∷ b) m = ground (arith, ordered_of_fresh b, to)

ordered-tail : (to : Status) (a : List Status) → ordered (to ∷ a) ≡ true → ordered a ≡ true
ordered-tail to a o = ground (arith, to)

ordered-append :
    (a b : List Status) → ordered a ≡ true → makes_anew b ≡ false → ordered (a ++ b) ≡ true
ordered-append [] b h m = ordered_of_fresh b m
ordered-append (to ∷ a) b h m = ground (arith, ordered-append a b, pending-append a b, to)

other_status : (a : Status) → a ≢ completed → status_eq a completed ≡ false
other_status completed n = absurd (n refl)
other_status _ n = ground arith

module _ {W : Type 0} where
  -- No attempt was made, or the winner passed its checks.
  abbrev pub Sound : Run W → Type 0
  Sound s = (is_nil s.cands ≡ true) ⊎ ((c : Candidate) × (s.winner ≡ some c) × (passed c ≡ true))

  abbrev Vouched : Run W → Type 0
  Vouched s = s.gate_error ≡ none → Sound s

  -- Before the job may be completed.
  abbrev Live : Bool → Run W → Type 0
  Live b s = (status_eq s.job.status completed ≡ false) × ((b ≡ true) ⊎ Vouched s)

  abbrev pub Kept : Run W → Type 0
  Kept s = s.job.status ≡ completed → Sound s

  abbrev Leaving : Left → Run W → Type 0
  Leaving l = Kept

  Live-Kept : (b : Bool) (s : Run W) → Live b s → Kept s
  Live-Kept b s h e = absurd (live s.job.status h.0 e)
    where
      live : (a : Status) → status_eq a completed ≡ false → a ≢ completed
      live a n e = ground (arith, ap (λ x. status_eq x completed) e)

module _ {W : Type 0} (env : Env W) (verified : is_some env.verifier ≡ true) where
  frame : (b : Bool) → IsFrame {W = W} (Live b) Leaving
  frame b = record { anywhere = λ s w h. h; breaks = λ s h. Live-Kept b s h }

  moves :
      (b : Bool) (to : Status)
      → status_eq to completed ≡ false
      → Keeps (Live b) Leaving (move env to)
  moves b to n =
      Hoare-move env Leaving (λ _. Live b) (λ s w h. h) to
        (λ j now s e h. (rw ((transition-ok now s.job to e).1) n, h.1)) (λ x now s e h. h)

  says : (b : Bool) (ctx : Ctx) (p : Payload) → Keeps (Live b) Leaving (emit env ctx p)
  says b ctx p = Keeps-emit env (frame b) ctx p (λ id s h. h)

  writes : (b : Bool) (ctx : Ctx) → Keeps (Live b) Leaving (update env ctx)
  writes b ctx = Keeps-update env (frame b) ctx (λ j took s h. h)

  advances :
      (b : Bool) (to : Status)
      → status_eq to completed ≡ false
      → Keeps (Live b) Leaving (advance env to)
  unfolding advance
  advances b to n = Keeps-bind _ _ (moves b to n) λ r. search (keeps_rules, writes) depth 9

  fails : (b : Bool) (e : Error) → Keeps (Live b) Leaving (mark_failed env e)
  unfolding mark_failed
  fails b e = Keeps-bind _ _ (moves b failed refl) λ r. search (keeps_rules, writes, says) depth 9

  cancels : (b : Bool) → Keeps (Live b) Leaving (mark_cancelled env)
  unfolding mark_cancelled
  cancels b =
      Keeps-bind _ _ (moves b cancelled refl) λ r. search (keeps_rules, writes, says) depth 9

  is_nil_of_map :
      (cs ds : List Candidate) → map (λ c. c.ws) cs ≡ map (λ c. c.ws) ds → is_nil cs ≡ is_nil ds
  is_nil_of_map [] [] h = refl
  is_nil_of_map [] (d ∷ ds) h = cc
  is_nil_of_map (c ∷ cs) [] h = cc
  is_nil_of_map (c ∷ cs) (d ∷ ds) h = refl

  decided :
      (r : Option Candidate × Option Error) (s : Run W)
      → Vouches env r
      → Vouched (record s { winner = r.0; gate_error = r.1 })
  decided r s v e = inr (v verified e)

  attempted :
      (cs : List Candidate) (s : Run W)
      → is_nil cs ≡ is_nil s.cands
      → Vouched s
      → Vouched (record s { cands = cs })
  attempted cs s n h e = elim (h e) [ inl k ↦ inl (n ∙ k) | inr k ↦ inr k ]

  stable : (b : Bool) → Stable env (Live b) Leaving
  stable b = record {
    quiet = record { frame = frame b; emits = λ ctx p _. says b ctx p };
    counts = λ m. Keeps-count env (frame b) m (λ s h. h);
    advances = advances b;
    fails = λ e. Hoare-mono (λ s h. h) (λ r s h. Live-Kept b s h) (fails b e);
    cancels = Hoare-mono (λ s h. h) (λ r s h. Live-Kept b s h) (cancels b);
    plans = λ p s h. h;
    selects = λ files tree s h. h;
    decides = λ best problem s v h. (h.0, inr (decided (best, problem) s v));
    attempts = λ cs s e h. (
      h.0,
      elim (h.1) [ inl k ↦ inl k | inr k ↦ inr (attempted cs s (is_nil_of_map cs s.cands e) k) ],
    );
  }
