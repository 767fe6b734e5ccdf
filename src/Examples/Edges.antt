-- ===== src/Examples/Edges.antt =====
-- The theorems about requests, model answers, commands and files at concrete inputs.
use rojo.Base.{
  ℕ, ◌+◌, ◌-◌, ◌*◌, ◌≤◌, ◌<◌, Bytes, Bool, true, false, List, [], ◌∷◌, ◌++◌, Option, none, some,
  ◌≡◌, refl, ◌↔◌, arith, All, bytes, bytes_eq, clean, contains_byte, length, trim_space, has_prefix,
  split, step_to, join_with,
}
use rojo.Errors.{Error, sentinel, job_not_running, ok}
use rojo.Jobs.Request.{NewJobRequest}
use rojo.Api.Paging.{page, page_params, limit_param, atoi, offset_param}
use rojo.Api.Paging.Tiles.{pages, pages_lem}
use rojo.Api.RateLimit.{
  Bucket, Limits, RateLimiter, full, new_bucket, refill, allow, admit, open_bucket, bucket_idle_ttl,
  find_bucket, sweep_due,
}
use rojo.Api.RateLimit.Grants.{grants, grants_bound}
use rojo.Api.RateLimit.Evictions.{refill-idle, admit-evicts}
use rojo.Orchestration.Canceller.{Canceller, new_canceller, find_cancel, track, release, cancel}
use rojo.Orchestration.Canceller.Fires.{cancel-track}
use rojo.Agents.Types.{Operation, write, delete}
use rojo.Agents.Implementor.{Root, check_protected, resolve_path, apply, max_ops_per_attempt}
use rojo.Agents.Implementor.Directories.{IsInside}
use rojo.Agents.Implementor.Confined.{apply-keeps}
use rojo.Agents.Model.{unfence, fence}
use rojo.Agents.Model.Fences.{unfence-fenced}
use rojo.Config.EnvFile.{Environment, opened, lookup_env, load_env_file}
use rojo.Config.EnvFile.Wins.{or_else, first_definition, load_env_file-value}
use rojo.Orchestration.Sources.{
  Worktree, file, read_sources, max_source_files, max_source_total_bytes, max_source_file_bytes,
}
use rojo.Orchestration.Sources.Bounded.{IsInner, total_of, read_sources-bounds}

abbrev request : NewJobRequest
request = record { task = bytes " fix it "; repo_path = bytes "/r" }

abbrev three : List ℕ
three = 1 ∷ 2 ∷ 3 ∷ []

pages_lem_example : (pages 2 0 2 three ≡ three) × ((o : ℕ) → length (page 2 o three) ≤ 2)
pages_lem_example = pages_lem 2 2 three (omega arith)

fifty : page_params (λ t. t) (bytes "50") [] ≡ ok (50, 0)
unfolding page_params bytes limit_param atoi offset_param
fifty = refl

abbrev tracked : Canceller ℕ
tracked = track (bytes "k") 7 new_canceller

cancel-track_example :
    ((cancel (bytes "j") (track (bytes "j") 5 tracked)).0 ≡ none)
    × ((cancel (bytes "j") (track (bytes "j") 5 tracked)).1.fired ≡ 5 ∷ tracked.fired)
    × (cancel (bytes "j") (cancel (bytes "j") (track (bytes "j") 5 tracked)).1
        ≡ (some (sentinel job_not_running), (cancel (bytes "j") (track (bytes "j") 5 tracked)).1))
    × (cancel (bytes "j") (release (bytes "j") (track (bytes "j") 5 tracked))
        ≡ (some (sentinel job_not_running), release (bytes "j") (track (bytes "j") 5 tracked)))
    × (bytes_eq (bytes "j") (bytes "k") ≡ false
        → find_cancel (bytes "k") (cancel (bytes "j") (track (bytes "j") 5 tracked)).1.cancels
          ≡ find_cancel (bytes "k") tracked.cancels)
cancel-track_example = cancel-track (bytes "j") (bytes "k") 5 tracked

resolved : resolve_path (bytes "a/./b") ≡ ok (bytes "a/b")
unfolding resolve_path bytes trim_space clean contains_byte has_prefix split step_to bytes_eq
    join_with check_protected
resolved = refl

-- A root whose world is the list of the files and directories that it touched.
abbrev log : Root (List Bytes) Bytes
log = record {
  open_root = λ p w. (none, w);
  close_root = λ w. w;
  mkdir_all = λ p w. (none, p ∷ w);
  write_file = λ p content w. (none, p ∷ w);
  open_append = λ p w. (ok p, p ∷ w);
  write_string = λ f content w. (none, w);
  close_file = λ f w. w;
  remove = λ p w. (none, p ∷ w);
  quote = λ s. s;
}

abbrev two_operations : List Operation
two_operations =
    record { kind = write; path = bytes "a/b"; content = bytes "x" }
    ∷ record { kind = delete; path = bytes "../c"; content = [] }
    ∷ []

apply-keeps_example :
    All IsInside (apply log (bytes "/w") two_operations []).1
    × (max_ops_per_attempt < 2
        → ((e : Error) × (apply log (bytes "/w") two_operations [] ≡ (some e, []))))
apply-keeps_example =
    apply-keeps log (All IsInside) (λ p w i h. (i, h)) (λ p content w i l h. (i, h))
      (λ p w i h. (i, h)) (λ p content f v w i l o h. h) (λ p w i h. (i, h)) (λ p w h. h) (λ w h. h)
      (bytes "/w") two_operations [] tt

json_tag : contains_byte 10 (bytes "json") ≡ false
unfolding contains_byte bytes
json_tag = refl

unfence-fenced_example :
    unfence (fence ++ (bytes "json" ++ 10 ∷ (bytes "{}" ++ 10 ∷ fence))) ≡ trim_space (bytes "{}")
unfence-fenced_example = unfence-fenced (bytes "json") (bytes "{}") json_tag

abbrev limits : Limits
limits = record { capacity = 2; rate = 1; unit = 10 }

grants_bound_example :
    (grants limits (new_bucket limits 5) (5 ∷ 6 ∷ 30 ∷ [])).0 * 10
    ≤ 2 * 10 + ((grants limits (new_bucket limits 5) (5 ∷ 6 ∷ 30 ∷ [])).1.last - 5) * 1
grants_bound_example = grants_bound limits 5 (5 ∷ 6 ∷ 30 ∷ []) (omega arith)

refill-idle_example :
    ((b : Bucket) (now : ℕ) → b.last + bucket_idle_ttl < now → refill limits b now ≡ full limits)
    ↔ (full limits ≤ (bucket_idle_ttl + 1) * 1)
refill-idle_example = refill-idle limits

-- One client, seen at the time 0, and a sweep that is due.
abbrev idle_bucket : Bucket
idle_bucket = record { tokens = 20; last = 0; last_seen = 0 }

abbrev idle_limiter : RateLimiter
idle_limiter = record { buckets = (bytes "c", idle_bucket) ∷ []; inserts = 0; last_swept = some 0 }

abbrev late : ℕ
late = 600000000001

idle_found : find_bucket (bytes "c") idle_limiter.buckets ≡ some idle_bucket
unfolding find_bucket bytes bytes_eq
idle_found = refl

idle_due : sweep_due idle_limiter 0 late ≡ true
unfolding sweep_due
idle_due = refl

admit-evicts_example :
    ((admit limits (bytes "c") late late late idle_limiter).0 ≡ (allow limits idle_bucket late).0)
    × ((open_bucket limits
          (bytes "c")
          late
          (admit limits (bytes "c") late late late idle_limiter).1).0
        ≡ new_bucket limits late)
admit-evicts_example =
    admit-evicts limits (bytes "c") late late late late 0 idle_limiter idle_found
      (λ h. omega arith, tt) refl idle_due

abbrev environment : Environment
environment = (bytes "A", bytes "1") ∷ []

abbrev env_lines : List Bytes
env_lines = bytes "A=2" ∷ bytes "B=3" ∷ bytes "B=4" ∷ []

load_env_file-value_example :
    ((v : Bytes)
      → lookup_env (bytes "B") environment ≡ some v
      → lookup_env
          (bytes "B")
          (load_env_file (bytes ".env") (opened false env_lines none) environment).1
        ≡ some v)
    × ((readable : Bool) (raws : List Bytes) (scan : Option Error)
        → opened false env_lines none ≡ opened readable raws scan
        → (load_env_file (bytes ".env") (opened false env_lines none) environment).0.1 ≡ none
        → lookup_env
            (bytes "B")
            (load_env_file (bytes ".env") (opened false env_lines none) environment).1
          ≡ or_else (lookup_env (bytes "B") environment) (first_definition (bytes "B") raws))
load_env_file-value_example =
    load_env_file-value (bytes ".env") (opened false env_lines none) environment (bytes "B")

-- A worktree in which every path is a file of two bytes.
abbrev tree : Worktree
tree = record { stat = λ p. file 2; read_file = λ p. ok (1 ∷ 2 ∷ []) }

tree_honest :
    (p content : Bytes) (size : ℕ)
    → tree.stat p ≡ file size
    → tree.read_file p ≡ ok content
    → length content ≤ size + 0
tree_honest p content size h k = ground arith

read_sources-bounds_example :
    All IsInner (read_sources tree (bytes "/w") (bytes "a" ∷ []))
    × (length (read_sources tree (bytes "/w") (bytes "a" ∷ [])) ≤ max_source_files)
    × (total_of (read_sources tree (bytes "/w") (bytes "a" ∷ []))
        < max_source_total_bytes + max_source_file_bytes + 0)
read_sources-bounds_example = read_sources-bounds tree (bytes "/w") 0 tree_honest (bytes "a" ∷ [])
