-- ===== src/Api/RateLimit.antt =====
-- internal/api/ratelimit.go and auth.go: the token buckets of the clients, and the two guards. A
-- bucket's tokens are counted in parts: `unit` parts are one token, and `rate` parts are refilled in a
-- nanosecond; no rounding of float64 is modelled. A time is a reading of the monotonic clock.
pub mod Grants
pub mod Evictions
use rojo.Base.{
  ℕ, ◌+◌, ◌-◌, ◌*◌, Bytes, Bool, true, false, not, ◌&&◌, ◌||◌, List, [], ◌∷◌, ◌++◌, Option, none,
  some, bytes, bytes_eq, cut_byte, is_empty, ltb, trim_prefix, trim_space, if◌then◌else◌,
}
use rojo.Api.Response.{Response, write_json_error}

pub record Bucket : Type 0 where
  pub tokens : ℕ
  pub last : ℕ
  pub last_seen : ℕ

-- NewRateLimiter's arguments, and the size of a token.
pub record Limits : Type 0 where
  pub capacity : ℕ
  pub rate : ℕ
  pub unit : ℕ

-- The tokens of a full bucket.
abbrev pub full : Limits → ℕ
full l = l.capacity * l.unit

unfoldable pub new_bucket : Limits → ℕ → Bucket
new_bucket l now = record { tokens = full l; last = now; last_seen = now }

-- The refill of allow, up to the time `now`.
unfoldable pub refill : Limits → Bucket → ℕ → ℕ
refill l b now =
    let tokens = b.tokens + (now - b.last) * l.rate in
    if ltb (full l) tokens then full l else tokens

unfoldable pub allow : Limits → Bucket → ℕ → Bool × Bucket
unfolding refill
allow l b now =
    let tokens = refill l b now in
    if ltb tokens l.unit
    then (false, record { tokens = tokens; last = now; last_seen = now })
    else (true, record { tokens = tokens - l.unit; last = now; last_seen = now })

abbrev pub bucket_idle_ttl : ℕ
bucket_idle_ttl = 600000000000

abbrev pub sweep_every : ℕ
sweep_every = 256

abbrev pub Buckets : Type 0
Buckets = List (Bytes × Bucket)

pub record RateLimiter : Type 0 where
  pub buckets : Buckets
  pub inserts : ℕ
  -- none is the zero time
  pub last_swept : Option ℕ

unfoldable pub find_bucket : Bytes → Buckets → Option Bucket
find_bucket key [] = none
find_bucket key ((k, b) ∷ m) = if bytes_eq k key then some b else find_bucket key m

-- A change of the bucket that a key has, through its pointer.
unfoldable pub set_bucket : Bytes → Bucket → Buckets → Buckets
set_bucket key b [] = []
set_bucket key b ((k, c) ∷ m) =
    let rest = set_bucket key b m in if bytes_eq k key then (k, b) ∷ rest else (k, c) ∷ rest

-- The loop of maybeSweepLocked: a bucket is dropped that was last seen before now - bucketIdleTTL.
unfoldable pub drop_idle : ℕ → Buckets → Buckets
drop_idle now [] = []
drop_idle now ((k, b) ∷ m) =
    let rest = drop_idle now m in
    if ltb (b.last_seen + bucket_idle_ttl) now then rest else (k, b) ∷ rest

unfoldable pub sweep_due : RateLimiter → ℕ → ℕ → Bool
sweep_due rl swept now = not (ltb rl.inserts sweep_every && ltb (now - swept) bucket_idle_ttl)

-- maybeSweepLocked
unfoldable pub maybe_sweep : ℕ → RateLimiter → RateLimiter
unfolding sweep_due drop_idle
maybe_sweep now rl = elim rl.last_swept [
  | none ↦ record rl { last_swept = some now }
  | some swept ↦
      if sweep_due rl swept now
      then record { buckets = drop_idle now rl.buckets; inserts = 0; last_swept = some now }
      else rl
]

-- The bucket of a key, and the limiter with it.
unfoldable pub open_bucket : Limits → Bytes → ℕ → RateLimiter → Bucket × RateLimiter
unfolding new_bucket
open_bucket l key now rl = elim (find_bucket key rl.buckets) [
  | some b ↦ (b, rl)
  | none ↦
      let b = new_bucket l now in
      (b, record rl { buckets = (key, b) ∷ rl.buckets; inserts = rl.inserts + 1 })
]

-- The critical section of Middleware: `opened`, `swept` and `now` are the three readings of the clock. The
-- bucket that is charged is the one that was looked up, whether or not the sweep left it in the map.
unfoldable pub admit : Limits → Bytes → ℕ → ℕ → ℕ → RateLimiter → Bool × RateLimiter
unfolding open_bucket
admit l key opened swept now rl =
    let (b, rl1) = open_bucket l key opened rl in
    let rl2 = maybe_sweep swept rl1 in
    let (allowed, b') = allow l b now in
    (allowed, record rl2 { buckets = set_bucket key b' rl2.buckets })

abbrev pub health_path : Bytes
unfolding bytes
health_path = bytes "/healthz"

-- The text behind the last byte `c`, if there is one.
unfoldable pub after_last : ℕ → Bytes → Option Bytes
unfolding cut_byte
after_last c [] = none
after_last c (b ∷ s) = elim (after_last c s) [
  | some r ↦ some r
  | none ↦ elim (cut_byte c (b ∷ s)) [ none ↦ none | some (l, r) ↦ some r ]
]

-- clientKey, at the values of X-Forwarded-For and RemoteAddr. `host_of` stands for net.SplitHostPort.
unfoldable pub client_key : Bool → (Bytes → Option Bytes) → Bytes → Bytes → Bytes
unfolding after_last
client_key trusted host_of forwarded remote =
    if trusted && not (is_empty forwarded)
    then trim_space (elim (after_last b',' forwarded) [ none ↦ forwarded | some r ↦ r ])
    else elim (host_of remote) [ none ↦ remote | some host ↦ host ]

-- What a guard does with a request: it is passed on, or answered.
pub data Guarded : Type 0 where
  passed : Guarded
  answered : Response → Guarded

-- Middleware
unfoldable pub limit_request :
    Limits → Bytes → Bytes → ℕ → ℕ → ℕ → RateLimiter → Guarded × RateLimiter
unfolding bytes admit
limit_request l path key opened swept now rl =
    if bytes_eq path health_path
    then (passed, rl)
    else let (allowed, rl1) = admit l key opened swept now rl in
      (
        if allowed then passed else answered (write_json_error 429 (bytes "rate limit exceeded")),
        rl1,
      )

-- TokenAuth, at the value of Authorization.
unfoldable pub token_auth : Bytes → Bytes → Bytes → Guarded
unfolding bytes trim_prefix
token_auth expected path header =
    let token = trim_prefix header (bytes "Bearer ") in
    if bytes_eq path health_path
    then passed
    else if bytes_eq token header || not (bytes_eq token expected)
    then answered (write_json_error 401 (bytes "unauthorized"))
    else passed
