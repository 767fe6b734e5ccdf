-- ===== src/Api/RateLimit/Evictions.antt =====
-- About internal/api/ratelimit.go: what a sweep drops.
use rojo.Base.{
  ℕ, ◌+◌, ◌-◌, ◌*◌, ◌≤◌, ◌<◌, Bytes, true, [], ◌∷◌, none, some, ◌≡◌, refl, ◌↔◌, arith, All,
  bytes_eq,
}
use rojo.Api.RateLimit.{
  Bucket, Buckets, Limits, RateLimiter, full, refill, allow, new_bucket, bucket_idle_ttl,
  find_bucket, set_bucket, drop_idle, sweep_due, maybe_sweep, open_bucket, admit,
}

times_mono : (a b r : ℕ) → a ≤ b → a * r ≤ b * r
times_mono a b r h = grind arith

-- A bucket that a sweep drops would have been full, whatever it held, exactly when the limiter refills
-- its whole capacity in the idle time; a limiter with a slower rate gives tokens away by dropping it.
pub refill-idle :
    (l : Limits)
    → ((b : Bucket) (now : ℕ) → b.last + bucket_idle_ttl < now → refill l b now ≡ full l)
      ↔ (full l ≤ (bucket_idle_ttl + 1) * l.rate)
unfolding refill
refill-idle l = (
  λ all.
      let e =
        all (record { tokens = 0; last = 0; last_seen = 0 }) (bucket_idle_ttl + 1) (omega arith) in
      ground arith,
  λ fast b now idle.
      let m = times_mono (bucket_idle_ttl + 1) (now - b.last) l.rate (omega arith) in
      ground (arith, m),
)

drop_idle-none :
    (key : Bytes) (now : ℕ) (m : Buckets)
    → All (λ e. bytes_eq e.0 key ≡ true → e.1.last_seen + bucket_idle_ttl < now) m
    → find_bucket key (drop_idle now m) ≡ none
unfolding find_bucket drop_idle
drop_idle-none key now [] h = refl
drop_idle-none key now ((k, b) ∷ m) (h, hs) = ground (arith, drop_idle-none key now m hs)

set_bucket-none :
    (key : Bytes) (b : Bucket) (m : Buckets)
    → find_bucket key m ≡ none
    → find_bucket key (set_bucket key b m) ≡ none
unfolding find_bucket set_bucket
set_bucket-none key b [] h = refl
set_bucket-none key b ((k, c) ∷ m) h = ground (arith, set_bucket-none key b m)

open_bucket-found :
    (l : Limits) (key : Bytes) (t : ℕ) (rl : RateLimiter) {b : Bucket}
    → find_bucket key rl.buckets ≡ some b
    → open_bucket l key t rl ≡ (b, rl)
unfolding open_bucket
open_bucket-found l key t rl h = rw (h, open_bucket) refl

open_bucket-missing :
    (l : Limits) (key : Bytes) (t : ℕ) (rl : RateLimiter)
    → find_bucket key rl.buckets ≡ none
    → (open_bucket l key t rl).0 ≡ new_bucket l t
unfolding open_bucket
open_bucket-missing l key t rl h = rw (h, open_bucket) refl

maybe_sweep-due :
    (rl : RateLimiter) {now s : ℕ}
    → rl.last_swept ≡ some s
    → sweep_due rl s now ≡ true
    → maybe_sweep now rl
      ≡ record { buckets = drop_idle now rl.buckets; inserts = 0; last_swept = some now }
unfolding maybe_sweep
maybe_sweep-due rl e due = ground arith

-- A client whose own request sets off the sweep after it has been idle is charged on a bucket that the
-- sweep has dropped: its next request opens a full bucket, as if this one had cost nothing.
pub admit-evicts :
    (l : Limits) (key : Bytes) (opened swept now next s : ℕ) (rl : RateLimiter) {b : Bucket}
    → find_bucket key rl.buckets ≡ some b
    → All (λ e. bytes_eq e.0 key ≡ true → e.1.last_seen + bucket_idle_ttl < swept) rl.buckets
    → rl.last_swept ≡ some s
    → sweep_due rl s swept ≡ true
    → ((admit l key opened swept now rl).0 ≡ (allow l b now).0)
      × ((open_bucket l key next (admit l key opened swept now rl).1).0 ≡ new_bucket l next)
unfolding admit
admit-evicts l key opened swept now next s rl {b} there idle e due =
    let swept_rl : RateLimiter = record {
      buckets = set_bucket key (allow l b now).1 (drop_idle swept rl.buckets);
      inserts = 0;
      last_swept = some swept;
    } in
    let missing =
      set_bucket-none key (allow l b now).1 _ (drop_idle-none key swept rl.buckets idle) in
    rw (open_bucket-found l key opened rl there, maybe_sweep-due rl e due)
      (refl, open_bucket-missing l key next swept_rl missing)
