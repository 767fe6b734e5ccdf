-- ===== src/Metrics/Totals.antt =====
-- About internal/metrics: the numbers of a snapshot against the calls that were counted.
use rojo.Base.{
  ℕ, zero, suc, eq_of_bytes_eq, ◌+◌, ◌-◌, ◌≤◌, Bytes, Bool-cases, List, [], ◌∷◌, ◌++◌, Option, ◌≡◌,
  refl, ap, ◌∙◌, inl, inr, arith, bytes, bytes_eq, if◌then◌else◌,
}
use rojo.Base.{ℤ, pos}
use rojo.Errors.{Error}
use rojo.Metrics.{
  record_duration, Registry, new_registry, job_started, job_ended, queue_waited, revision_requested,
  Usage, model_call, snapshot, increment, decrement,
}
use rojo.Metrics.Durations.{known, IsStat, record_duration-IsStat}

-- A call of a method of the registry.
pub data Use : Type 0 where
  started revised : Use
  ended : Bytes → ℤ → Use
  waited : ℤ → Use
  called : ℤ → Option Error → Usage → Use

unfoldable pub step : Use → Registry → Registry
step started r = job_started r
step revised r = revision_requested r
step (ended status took) r = job_ended status took r
step (waited v) r = queue_waited v r
step (called took problem usage) r = model_call took problem usage r

-- The registry after some calls, the last one first.
unfoldable pub counted : List Use → Registry
counted [] = new_registry
counted (u ∷ us) = step u (counted us)

abbrev pub starts : List Use → ℕ
starts [] = 0
starts (started ∷ us) = 1 + starts us
starts (revised ∷ us) = starts us
starts (ended s v ∷ us) = starts us
starts (waited v ∷ us) = starts us
starts (called v e t ∷ us) = starts us

abbrev pub ends : List Use → ℕ
ends [] = 0
ends (started ∷ us) = ends us
ends (revised ∷ us) = ends us
ends (ended s v ∷ us) = 1 + ends us
ends (waited v ∷ us) = ends us
ends (called v e t ∷ us) = ends us

-- At no time had more jobs ended than started, as when the function that JobStarted returns is called
-- once.
abbrev pub Balanced : List Use → Type 0
Balanced [] = Unit
Balanced (u ∷ us) = (ends (u ∷ us) ≤ starts (u ∷ us)) × Balanced us

-- The durations of jobs that are not negative.
abbrev pub took : List Use → List ℕ
took [] = []
took (started ∷ us) = took us
took (revised ∷ us) = took us
took (ended s v ∷ us) = known v ++ took us
took (waited v ∷ us) = took us
took (called v e t ∷ us) = took us

abbrev pub ended_as : Bytes → List Use → ℕ
ended_as p [] = 0
ended_as p (started ∷ us) = ended_as p us
ended_as p (revised ∷ us) = ended_as p us
ended_as p (ended s v ∷ us) = (if bytes_eq s p then 1 else 0) + ended_as p us
ended_as p (waited v ∷ us) = ended_as p us
ended_as p (called v e t ∷ us) = ended_as p us

-- What a snapshot says of the jobs: the jobs that run, each outcome, their sum, and the durations.
pub record IsTally (us : List Use) (r : Registry) : Type 0 where
  pub active : (snapshot r).active ≡ pos (starts us - ends us)
  pub completed : (snapshot r).completed ≡ ended_as (bytes "completed") us
  pub cancelled : (snapshot r).cancelled ≡ ended_as (bytes "cancelled") us
  pub total : (snapshot r).total ≡ ends us
  pub duration : IsStat (took us) r.job_duration

balanced : (us : List Use) → Balanced us → ends us ≤ starts us
balanced [] h = omega arith
balanced (u ∷ us) (h, k) = h

decrement-pos : (n : ℕ) → 1 ≤ n → decrement (pos n) ≡ pos (n - 1)
decrement-pos zero h = absurd (omega (arith, h))
decrement-pos (suc n) h = ap pos (omega arith)

-- A job that ends is counted once, under its status.
outcome :
    (status : Bytes) (v : ℤ) (r : Registry)
    → ((snapshot (job_ended status v r)).completed
        ≡ (if bytes_eq status (bytes "completed") then 1 else 0) + r.jobs_completed)
      × ((snapshot (job_ended status v r)).cancelled
          ≡ (if bytes_eq status (bytes "cancelled") then 1 else 0) + r.jobs_cancelled)
      × ((snapshot (job_ended status v r)).total ≡ 1 + (snapshot r).total)
unfolding job_ended snapshot bytes bytes_eq
outcome status v r = elim (Bool-cases (bytes_eq status (bytes "completed"))) [
  | inl e ↦ rw (eq_of_bytes_eq status (bytes "completed") e) (omega arith, omega arith, omega arith)
  | inr e ↦ elim (Bool-cases (bytes_eq status (bytes "cancelled"))) [
    | inl f ↦ rw (e, f) (omega arith, omega arith, omega arith)
    | inr f ↦ rw (e, f) (omega arith, omega arith, omega arith)
  ]
]

left :
    (status : Bytes) (v : ℤ) (r : Registry)
    → ((job_ended status v r).active_jobs ≡ decrement r.active_jobs)
      × ((job_ended status v r).job_duration ≡ record_duration v r.job_duration)
unfolding job_ended
left status v r = elim (Bool-cases (bytes_eq status (bytes "completed"))) [
  | inl e ↦ rw e (refl, refl)
  | inr e ↦ elim (Bool-cases (bytes_eq status (bytes "cancelled"))) [
    | inl f ↦ rw (e, f) (refl, refl)
    | inr f ↦ rw (e, f) (refl, refl)
  ]
]

ended-IsTally :
    (status : Bytes) (v : ℤ) (us : List Use) (r : Registry)
    → 1 + ends us ≤ starts us
    → IsTally us r
    → IsTally (ended status v ∷ us) (job_ended status v r)
unfolding snapshot
ended-IsTally status v us r h t =
    let (completes, cancels, totals) = outcome status v r in
    let (leaves, records) = left status v r in
    record {
      active =
          leaves
          ∙ ap decrement t.active
          ∙ decrement-pos (starts us - ends us) (omega (arith, h))
          ∙ ap pos (omega arith);
      completed =
          completes
          ∙ ap (λ n. (if bytes_eq status (bytes "completed") then 1 else 0) + n) t.completed;
      cancelled =
          cancels
          ∙ ap (λ n. (if bytes_eq status (bytes "cancelled") then 1 else 0) + n) t.cancelled;
      total = totals ∙ ap (λ n. 1 + n) t.total;
      duration = rw records (record_duration-IsStat v (took us) r.job_duration t.duration);
    }

-- After any calls of the registry, in which no more jobs have ended than started at any time: the
-- snapshot's gauge is the number of jobs that have started and not ended, completed and cancelled are
-- the jobs that ended so, the total is all that ended, and the durations are summed, counted and
-- bounded by the maximum, negative ones aside.
pub counted-IsTally : (us : List Use) → Balanced us → IsTally us (counted us)
unfolding counted new_registry snapshot step job_started revision_requested queue_waited model_call
counted-IsTally [] h = record {
  active = refl;
  completed = refl;
  cancelled = refl;
  total = refl;
  duration = record { sums = refl; counts = refl; bounds = tt; mean = omega arith };
}
counted-IsTally (started ∷ us) (h, k) =
    let t = counted-IsTally us k in
    record {
      active = ap increment t.active ∙ ap pos (let b = balanced us k in omega (arith, b));
      completed = t.completed;
      cancelled = t.cancelled;
      total = t.total;
      duration = t.duration;
    }
counted-IsTally (revised ∷ us) (h, k) =
    let t = counted-IsTally us k in
    record {
      active = t.active;
      completed = t.completed;
      cancelled = t.cancelled;
      total = t.total;
      duration = t.duration;
    }
counted-IsTally (ended status v ∷ us) (h, k) =
    ended-IsTally status v us (counted us) h (counted-IsTally us k)
counted-IsTally (waited v ∷ us) (h, k) =
    let t = counted-IsTally us k in
    record {
      active = t.active;
      completed = t.completed;
      cancelled = t.cancelled;
      total = t.total;
      duration = t.duration;
    }
counted-IsTally (called v e u ∷ us) (h, k) =
    let t = counted-IsTally us k in
    record {
      active = t.active;
      completed = t.completed;
      cancelled = t.cancelled;
      total = t.total;
      duration = t.duration;
    }
