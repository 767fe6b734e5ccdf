-- ===== src/Metrics.antt =====
-- internal/metrics: the registry of counters and the client that measures calls of the model. The
-- counters are atomic, so that concurrent calls are calls in some order; their wrap at 2^63 and a nil
-- registry, which counts nothing, are left out. A time.Duration is a number of nanoseconds.
pub mod Durations
pub mod Totals
use rojo.Base.{
  ℕ, zero, suc, ◌+◌, ◌-◌, ◌/◌, Bytes, Bool, Option, none, some, bytes, bytes_eq, is_some, ltb,
  if◌then◌else◌,
}
use rojo.Base.{ℤ, pos, negsuc}
use rojo.Errors.{Error}

-- durationStat
pub record DurationStat : Type 0 where
  pub total : ℕ
  pub count : ℕ
  pub max : ℕ

unfoldable pub record_duration : ℤ → DurationStat → DurationStat
record_duration (negsuc n) d = d
record_duration (pos v) d = record {
  total = d.total + v;
  count = d.count + 1;
  max = if ltb d.max v then v else d.max;
}

abbrev pub no_duration : DurationStat
no_duration = record { total = 0; count = 0; max = 0 }

pub record Registry : Type 0 where
  pub jobs_completed : ℕ
  pub jobs_failed : ℕ
  pub jobs_cancelled : ℕ
  pub active_jobs : ℤ
  pub model_calls : ℕ
  pub model_errors : ℕ
  pub model_latency : DurationStat
  pub input_tokens : ℕ
  pub output_tokens : ℕ
  pub job_duration : DurationStat
  pub queue_wait : DurationStat
  pub revisions_requested : ℕ

-- New
unfoldable pub new_registry : Registry
new_registry = record {
  jobs_completed = 0;
  jobs_failed = 0;
  jobs_cancelled = 0;
  active_jobs = pos 0;
  model_calls = 0;
  model_errors = 0;
  model_latency = no_duration;
  input_tokens = 0;
  output_tokens = 0;
  job_duration = no_duration;
  queue_wait = no_duration;
  revisions_requested = 0;
}

abbrev pub increment : ℤ → ℤ
increment (pos n) = pos (n + 1)
increment (negsuc zero) = pos 0
increment (negsuc (suc n)) = negsuc n

abbrev pub decrement : ℤ → ℤ
decrement (pos zero) = negsuc 0
decrement (pos (suc n)) = pos n
decrement (negsuc n) = negsuc (n + 1)

-- JobStarted, and the function that it returns.
unfoldable pub job_started : Registry → Registry
job_started r = record r { active_jobs = increment r.active_jobs }

unfoldable pub job_ended : Bytes → ℤ → Registry → Registry
unfolding bytes
job_ended status took r =
    let left : Registry = record r {
      active_jobs = decrement r.active_jobs;
      job_duration = record_duration took r.job_duration;
    } in
    if bytes_eq status (bytes "completed")
    then record left { jobs_completed = r.jobs_completed + 1 }
    else if bytes_eq status (bytes "cancelled")
    then record left { jobs_cancelled = r.jobs_cancelled + 1 }
    else record left { jobs_failed = r.jobs_failed + 1 }

-- QueueWait and RevisionRequested
unfoldable pub queue_waited : ℤ → Registry → Registry
queue_waited v r = record r { queue_wait = record_duration v r.queue_wait }

unfoldable pub revision_requested : Registry → Registry
revision_requested r = record r { revisions_requested = r.revisions_requested + 1 }

pub record Usage : Type 0 where
  pub input : ℤ
  pub output : ℤ

-- What a reported number of tokens adds.
abbrev pub tokens : ℤ → ℕ
tokens (pos n) = n
tokens (negsuc n) = 0

-- ModelCall
unfoldable pub model_call : ℤ → Option Error → Usage → Registry → Registry
model_call took problem usage r = record r {
  model_calls = r.model_calls + 1;
  model_latency = record_duration took r.model_latency;
  model_errors = if is_some problem then r.model_errors + 1 else r.model_errors;
  input_tokens = r.input_tokens + tokens usage.input;
  output_tokens = r.output_tokens + tokens usage.output;
}

-- The map of durationStat.snapshot: milliseconds, and a mean unless nothing was recorded.
pub record DurationView : Type 0 where
  pub count : ℕ
  pub total_ms : ℕ
  pub max_ms : ℕ
  pub mean_ms : Option ℕ

unfoldable pub view_duration : DurationStat → DurationView
view_duration d = record {
  count = d.count;
  total_ms = d.total / 1000000;
  max_ms = d.max / 1000000;
  mean_ms = if ltb 0 d.count then some (d.total / d.count / 1000000) else none;
}

-- The map of Snapshot, less the nesting.
pub record Snapshot : Type 0 where
  pub active : ℤ
  pub completed : ℕ
  pub failed : ℕ
  pub cancelled : ℕ
  pub total : ℕ
  pub duration : DurationView
  pub wait : DurationView
  pub calls : ℕ
  pub errors : ℕ
  pub latency : DurationView
  pub input : ℕ
  pub output : ℕ
  pub total_tokens : ℕ
  pub revisions_requested : ℕ

unfoldable pub snapshot : Registry → Snapshot
snapshot r = record {
  active = r.active_jobs;
  completed = r.jobs_completed;
  failed = r.jobs_failed;
  cancelled = r.jobs_cancelled;
  total = r.jobs_completed + r.jobs_failed + r.jobs_cancelled;
  duration = view_duration r.job_duration;
  wait = view_duration r.queue_wait;
  calls = r.model_calls;
  errors = r.model_errors;
  latency = view_duration r.model_latency;
  input = r.input_tokens;
  output = r.output_tokens;
  total_tokens = r.input_tokens + r.output_tokens;
  revisions_requested = r.revisions_requested;
}

-- Generate of instrumentedModel, over the client that it wraps; `since` is the time that the call took.
unfoldable pub generate :
    {Q A W : Type 0}
    → (Q → W → (A × Option Error) × W)
    → (A → Usage)
    → (W → W → ℤ)
    → Q
    → Registry
    → W
    → (A × Option Error) × Registry × W
generate inner usage since req r w =
    let ((resp, problem), w1) = inner req w in
    ((resp, problem), model_call (since w w1) problem (usage resp) r, w1)
